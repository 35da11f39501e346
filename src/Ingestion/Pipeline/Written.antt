-- ===== src/Ingestion/Pipeline/Written.antt =====
-- A task made for a post is found under the post's id, and under every id whose decimal digits
-- start it.
use content_fabric.Base.{
  ℕ, ◌≡◌, refl, sym, ap, ◌∙◌, Bool, true, false, not, ◌&&◌, ◌||◌, some, List, [], ◌∷◌, ◌++◌, arith,
  leb, ◌==◌, all_of, true-false, ==_iff, All, All-append, All-imp, inl, inr, Bool-cases,
}
use content_fabric.Text.{Text, text, backslash}
use content_fabric.Text.Decimal.{decimal, is_digit, decimal-digits}
use content_fabric.Text.Like.{
  like, Wildcard, IsPlain, any_run, wildcard, read_pattern, matches_pattern, read_pattern-plain,
  read_pattern-percent, matches_pattern-plain, matches_pattern-skip, matches_pattern-rest,
}
use content_fabric.Json.{str, obj, Fields, end, field}
use content_fabric.Json.Dumps.{dumps, dumps_fields, escaped, escape_char}
use content_fabric.Ingestion.Client.{Post}
use content_fabric.Ingestion.Pipeline.{
  source_mark, id_mark, dle_pattern, like_column, legacy_info, post_url, json_fields, json_number,
}
use mathlib.Core.List.{map, append_assoc}

abbrev pub is_slug_char : ℕ → Bool
is_slug_char c = (leb b'a' c && leb c b'z') || is_digit c || (c == b'_')

-- lower-case letters, digits and underscores
abbrev pub IsSlug : Text → Type 0
IsSlug = All (λ c. is_slug_char c ≡ true)

-- A slug has no character that is not one of a slug.
slug_char-other : (c k : ℕ) → is_slug_char c ≡ true → is_slug_char k ≡ false → (c == k) ≡ false
slug_char-other c k h e = elim (Bool-cases (c == k)) [
  | inl same ↦ absurd (true-false (sym h ∙ ap is_slug_char ((==_iff c k).0 same) ∙ e))
  | inr other ↦ other
]

printed : (c : ℕ) → is_slug_char c ≡ true → (leb 32 c && leb c 126) ≡ true
printed c h = ground arith

escape_char-slug : (c : ℕ) → is_slug_char c ≡ true → escape_char c ≡ c ∷ []
escape_char-slug c h =
    rw
      (
        other b'"' refl,
        other backslash refl,
        other 10 refl,
        other 13 refl,
        other 9 refl,
        other 12 refl,
        other 8 refl,
        printed c h,
      )
      refl
  where
    other : (k : ℕ) → is_slug_char k ≡ false → (c == k) ≡ false
    other k e = slug_char-other c k h e

escaped-slug : (s rest : Text) → IsSlug s → escaped s rest ≡ s ++ rest
unfolding escaped
escaped-slug [] rest h = refl
escaped-slug (c ∷ s) rest h =
    rw (escape_char-slug c h.0) (ap (λ r. c ∷ r) (escaped-slug s rest h.1))

plain_char : (c : ℕ) → is_slug_char c ≡ true → ((c == backslash) ≡ false) × ((c == b'%') ≡ false)
plain_char c h = ground arith

abbrev is_plain_char : ℕ → Bool
is_plain_char c = not (c == backslash) && not (c == b'%')

plain_parts : (c : ℕ) → is_plain_char c ≡ true → ((c == backslash) ≡ false) × ((c == b'%') ≡ false)
plain_parts c h = ground arith

digit_char : (c : ℕ) → is_digit c ≡ true → ((c == backslash) ≡ false) × ((c == b'%') ≡ false)
digit_char c h = ground arith

IsPlain-text : (w : Text) → all_of is_plain_char w ≡ true → IsPlain w
IsPlain-text [] h = tt
IsPlain-text (c ∷ w) h = elim (Bool-cases (is_plain_char c)) [
  | inl plain ↦ (plain_parts c plain, IsPlain-text w (rw plain at h))
  | inr special ↦ absurd (true-false (sym (rw special at h)))
]

source_mark-IsPlain : (s : Text) → IsSlug s → IsPlain (source_mark s)
source_mark-IsPlain s h =
    let tail : IsPlain (s ++ (b'"' ∷ [])) =
      All-append (λ c. ((c == backslash) ≡ false) × ((c == b'%') ≡ false)) s (b'"' ∷ [])
        (All-imp plain_char s h) ((refl, refl), tt) in
    All-append (λ c. ((c == backslash) ≡ false) × ((c == b'%') ≡ false)) (text "\"dle_source\": \"")
      (s ++ (b'"' ∷ [])) (IsPlain-text (text "\"dle_source\": \"") refl) tail

id_mark-IsPlain : (k : ℕ) → IsPlain (id_mark k)
id_mark-IsPlain k =
    All-append (λ c. ((c == backslash) ≡ false) × ((c == b'%') ≡ false)) (text "\"dle_post_id\": ")
      (decimal k) (IsPlain-text (text "\"dle_post_id\": ") refl)
      (All-imp digit_char (decimal k) (decimal-digits k))

-- the pattern from its second percent sign on
abbrev then_id : ℕ → List Wildcard
then_id k = any_run ∷ (map wildcard (id_mark k) ++ any_run ∷ [])

read_pattern-dle :
    (slug : Text) (k : ℕ)
    → IsSlug slug
    → read_pattern (dle_pattern slug k)
      ≡ any_run
        ∷ (map wildcard (source_mark slug)
            ++ (any_run ∷ (map wildcard (id_mark k) ++ (any_run ∷ []))))
read_pattern-dle slug k h =
    read_pattern-percent (source_mark slug ++ (b'%' ∷ (id_mark k ++ (b'%' ∷ []))))
    ∙ ap (λ ps. any_run ∷ ps)
        (read_pattern-plain (source_mark slug) (b'%' ∷ (id_mark k ++ (b'%' ∷ [])))
            (source_mark-IsPlain slug h)
          ∙ ap (λ ps. map wildcard (source_mark slug) ++ ps)
              (read_pattern-percent (id_mark k ++ (b'%' ∷ []))
                ∙ ap (λ ps. any_run ∷ ps)
                    (read_pattern-plain (id_mark k) (b'%' ∷ []) (id_mark-IsPlain k)
                      ∙ ap (λ ps. map wildcard (id_mark k) ++ ps)
                          (read_pattern-percent [] ∙ read_pattern-nil))))
  where
    read_pattern-nil : any_run ∷ read_pattern [] ≡ any_run ∷ []
    read_pattern-nil = unfold read_pattern in refl

-- Any text with the two marks in it, in this order, is found.
pub like-marks :
    (same : ℕ → ℕ → Bool)
    → ((c : ℕ) → same c c ≡ true)
    → (slug : Text) (k : ℕ) (pre mid rest : Text) → IsSlug slug
    → like same (dle_pattern slug k) (pre ++ (source_mark slug ++ (mid ++ (id_mark k ++ rest))))
      ≡ true
unfolding like
like-marks same equal slug k pre mid rest h =
    ap (λ ps. matches_pattern same ps (pre ++ (source_mark slug ++ (mid ++ (id_mark k ++ rest)))))
      (read_pattern-dle slug k h)
    ∙ matches_pattern-skip same pre (map wildcard (source_mark slug) ++ then_id k)
        (source_mark slug ++ (mid ++ (id_mark k ++ rest)))
        (matches_pattern-plain same equal (source_mark slug) (then_id k)
            (mid ++ (id_mark k ++ rest)) (source_mark-IsPlain slug h)
          ∙ matches_pattern-skip same mid (map wildcard (id_mark k) ++ any_run ∷ [])
              (id_mark k ++ rest)
              (matches_pattern-plain same equal (id_mark k) (any_run ∷ []) rest (id_mark-IsPlain k)
                ∙ matches_pattern-rest same rest))

-- the fields of `legacy_info` after the first two
abbrev more_fields : Text → Text → Post → Fields
more_fields trace_id slug post = field (text "dle_post_url") (str (post_url slug post)) (
    field (text "normalized") (obj post.normalized) (
      field (text "xfields_parsed") (obj (json_fields post.xfields_parsed)) (
        field (text "book_id") (json_number post.book_id)
          (field (text "trace_id") (str trace_id) end))))

-- What the column of such a task begins with.
dumps-legacy_info :
    (trace_id slug : Text) (post : Post)
    → IsSlug slug
    → dumps (legacy_info trace_id slug post)
      ≡ (b'{' ∷ [])
        ++ (source_mark slug
            ++ (text ", "
                ++ (id_mark post.id
                    ++ (text ", " ++ dumps_fields (more_fields trace_id slug post) []))))
unfolding dumps
dumps-legacy_info trace_id slug post h =
    ap (λ r. (b'{' ∷ text "\"dle_source\": \"") ++ r)
      (escaped-slug slug _ h ∙ sym (append_assoc slug (b'"' ∷ []) _))
    ∙ refl

-- The column of a task for the post `post`, searched for any id whose mark starts that of the post.
pub like_column-legacy_info :
    (same : ℕ → ℕ → Bool)
    → ((c : ℕ) → same c c ≡ true)
    → (trace_id slug : Text) (post : Post) (k : ℕ) (rest : Text) → IsSlug slug
    → decimal post.id ≡ decimal k ++ rest
    → like_column same (dle_pattern slug k) (some (legacy_info trace_id slug post)) ≡ true
like_column-legacy_info same equal trace_id slug post k rest h e =
    ap (like same (dle_pattern slug k)) (dumps-legacy_info trace_id slug post h ∙ split_id)
    ∙ like-marks same equal slug k (b'{' ∷ []) (text ", ") (rest ++ after) h
  where
    after : Text
    after = text ", " ++ dumps_fields (more_fields trace_id slug post) []

    split_id :
        (b'{' ∷ []) ++ (source_mark slug ++ (text ", " ++ (id_mark post.id ++ after)))
        ≡ (b'{' ∷ []) ++ (source_mark slug ++ (text ", " ++ (id_mark k ++ (rest ++ after))))
    split_id =
        ap
          (λ d. (b'{' ∷ []) ++ (source_mark slug ++ (text ", " ++ (text "\"dle_post_id\": " ++ d))))
          (ap (λ d. d ++ after) e ∙ append_assoc (decimal k) rest after)
