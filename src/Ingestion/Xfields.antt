-- ===== src/Ingestion/Xfields.antt =====
-- prod/shared/ingestion/dle/xfields_parser.py: the fields `key|value||key|value` of a post.
pub mod Laws
use content_fabric.Base.{ℕ, Bool, ◌&&◌, Option, none, some, List, [], ◌∷◌, ◌==◌, if◌then◌else◌}
use content_fabric.Text.{Text, text, text_eq, is_empty, is_blank, or_blank}
use content_fabric.Text.Decimal.{strip}
use content_fabric.Text.Split.{push}
use content_fabric.Json.{Json, null, str, Fields, end, field}

-- a dict from str to str, in the order of the keys
abbrev pub Xfields : Type 0
Xfields = List (Text × Text)

-- `d[key] = value`: a key that is there keeps its place
unfoldable pub put : Text → Text → Xfields → Xfields
unfolding text_eq
put k v [] = (k, v) ∷ []
put k v ((j, w) ∷ d) = if text_eq j k then (j, v) ∷ d else (j, w) ∷ put k v d

-- `d.get(key)`
unfoldable pub get : Text → Xfields → Option Text
unfolding text_eq
get k [] = none
get k ((j, w) ∷ d) = if text_eq j k then some w else get k d

-- `s.split("||")`
unfoldable pub split_bars : Text → List Text
split_bars [] = [] ∷ []
split_bars (c ∷ []) = (c ∷ []) ∷ []
split_bars (c ∷ d ∷ s) =
    let apart = [] ∷ split_bars s in
    let on = push c (split_bars (d ∷ s)) in if (c == b'|') && (d == b'|') then apart else on

abbrev pub before_cut : ℕ → Option (Text × Text) → Option (Text × Text)
before_cut c none = none
before_cut c (some (key, value)) = some (c ∷ key, value)

-- `part.split("|", 1)`, or `none` when the part has no bar
unfoldable pub cut_bar : Text → Option (Text × Text)
cut_bar [] = none
cut_bar (c ∷ s) = if c == b'|' then some ([], s) else before_cut c (cut_bar s)

abbrev pub put_cut : Option (Text × Text) → Xfields → Xfields
put_cut none d = d
put_cut (some (key, value)) d = put (strip key) (strip value) d

-- the loop over the parts
unfoldable pub put_parts : List Text → Xfields → Xfields
unfolding put cut_bar
put_parts [] d = d
put_parts (part ∷ parts) d = put_parts parts (put_cut (cut_bar part) d)

unfoldable pub parse_xfields : Option Text → Xfields
unfolding put_parts split_bars
parse_xfields s = if is_blank s then [] else put_parts (split_bars (or_blank s)) []

-- `a or b`
abbrev pub or_next : Option Text → Option Text → Option Text
or_next a b = if is_blank a then b else a

abbrev pub json_of : Option Text → Json
json_of none = null
json_of (some s) = str s

unfoldable pub get_normalized_fields : Xfields → Fields
unfolding get
get_normalized_fields xf = field (text "book_name") (json_of (get (text "namebook") xf)) (
    field (text "author") (json_of (or_next (get (text "author") xf) (get (text "avtor") xf))) (
      field (text "cover")
        (json_of (
          or_next (get (text "cover") xf)
            (or_next (get (text "wallpaper") xf) (get (text "tr_cover") xf))))
        (field (text "narrator")
          (json_of (or_next (get (text "performer") xf) (get (text "chtec") xf)))
          (field (text "duration") (json_of (get (text "time") xf)) (
            field (text "external_id")
              (json_of (or_next (get (text "tr_id") xf) (get (text "baza_knig_info_id") xf)))
              (field (text "page_count") (json_of (get (text "tr_cnt_p") xf)) end))))))
