-- ===== src/Ingestion/Sources.antt =====
-- prod/shared/ingestion/dle/sources.py: where the cover of a post is, for each source.
pub mod Laws
use content_fabric.Base.{
  ℕ, Bool, true, false, not, ◌&&◌, ◌||◌, Option, none, some, List, [], ◌∷◌, ◌++◌, ◌==◌,
  if◌then◌else◌,
}
use content_fabric.Text.{Text, text, text_eq, is_empty, is_blank, or_blank, starts_with}
use content_fabric.Ingestion.Xfields.{Xfields, get}

abbrev pub cdn_redirectto : Text
cdn_redirectto = text "https://vvoqhuz9dcid9zx9.redirectto.cc"

abbrev pub cdn_my_library : Text
cdn_my_library = text "https://cdn.my-library.info"

-- each character and a slash
unfoldable pub imgurl : Text → Text
imgurl [] = []
imgurl (c ∷ s) = c ∷ b'/' ∷ imgurl s

-- `not in (None, "", "images/no-cover.jpg")`
abbrev pub is_value : Text → Bool
is_value v = not (is_empty v) && not (text_eq v (text "images/no-cover.jpg"))

abbrev pub value_or : Option Text → Option Text → Option Text
value_or none next = next
value_or (some v) next = if is_value v then some v else next

-- `_xf`: the first key with a value
unfoldable pub xf : Xfields → List Text → Option Text
unfolding text_eq
xf fields [] = none
xf fields (k ∷ ks) = value_or (get k fields) (xf fields ks)

-- `s.lstrip("/")`
unfoldable pub lstrip_slash : Text → Text
lstrip_slash [] = []
lstrip_slash (c ∷ s) = if c == b'/' then lstrip_slash s else c ∷ s

-- `s.startswith(("http://", "https://"))`
unfoldable pub is_url : Text → Bool
unfolding starts_with
is_url s = starts_with (text "http://") s || starts_with (text "https://") s

-- A URL and its referer; `none` is `(None, "")`.
abbrev pub Cover : Type 0
Cover = Option (Text × Text)

-- the cover as it is if it is a URL, or below `base`
abbrev pub cover_below : Text → Text → Option Text → Cover
cover_below base referer none = none
cover_below base referer (some cover) =
    if is_url cover
    then some (cover, referer)
    else some (base ++ (b'/' ∷ lstrip_slash cover), referer)

unfoldable pub cover_audiokniga_one_com : Xfields → Cover
unfolding is_url lstrip_slash
cover_audiokniga_one_com fields =
    cover_below cdn_redirectto cdn_redirectto (xf fields (text "cover" ∷ text "wallpaper" ∷ []))

abbrev pub bazaknig_at : Option Text → Option Text → Cover
bazaknig_at none cover = none
bazaknig_at (some info_id) none = none
bazaknig_at (some info_id) (some cover) =
    some (
      cdn_redirectto ++ (text "/s01/" ++ (imgurl info_id ++ cover)),
      text "https://cdn.bazaknig.net",
    )

unfoldable pub cover_bazaknig_net : Xfields → Cover
cover_bazaknig_net fields =
    bazaknig_at (xf fields (text "baza_knig_info_id" ∷ [])) (xf fields (text "cover" ∷ []))

abbrev pub club_books_at : Option Text → Cover
club_books_at none = none
club_books_at (some tr_id) =
    some
      (cdn_redirectto ++ (text "/s20/" ++ (imgurl tr_id ++ (tr_id ++ text ".jpg"))), cdn_redirectto)

unfoldable pub cover_club_books_ru : Xfields → Cover
cover_club_books_ru fields = club_books_at (xf fields (text "tr_id" ∷ []))

unfoldable pub cover_books_online_info : Xfields → Cover
unfolding is_url lstrip_slash
cover_books_online_info fields =
    cover_below cdn_my_library cdn_my_library (xf fields (text "wallpaper" ∷ text "cover" ∷ []))

unfoldable pub cover_slushat_knigi_com : Xfields → Cover
unfolding is_url lstrip_slash
cover_slushat_knigi_com fields =
    cover_below (text "https://slushat-knigi.com/uploads/posts") (text "https://slushat-knigi.com/")
      (xf fields (text "cover" ∷ text "wallpaper" ∷ []))

-- `COVER_BUILDERS`
abbrev pub cover_builders : List (Text × (Xfields → Cover))
cover_builders =
    (text "audiokniga_one_com", cover_audiokniga_one_com)
    ∷ (text "knigi_audio_biz", cover_audiokniga_one_com)
    ∷ (text "bazaknig_net", cover_bazaknig_net)
    ∷ (text "club_books_ru", cover_club_books_ru)
    ∷ (text "knigi_online_club", cover_club_books_ru)
    ∷ (text "books_online_info", cover_books_online_info)
    ∷ (text "slushat_knigi_com", cover_slushat_knigi_com)
    ∷ []

abbrev pub cover_by : List (Text × (Xfields → Cover)) → Text → Xfields → Cover
cover_by [] slug fields = none
cover_by ((name, builder) ∷ builders) slug fields =
    if text_eq name slug then builder fields else cover_by builders slug fields

unfoldable pub build_cover_url : Text → Xfields → Cover
unfolding text_eq
build_cover_url slug fields = cover_by cover_builders slug fields
