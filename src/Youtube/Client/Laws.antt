-- ===== src/Youtube/Client/Laws.antt =====
-- Bounds of the request, and how the retries end.
use content_fabric.Base.{
  ℕ, zero, suc, ◌+◌, ◌≤◌, ◌<◌, ◌≡◌, ap, ◌∙◌, false, not, Option, none, some, List, [], ◌∷◌, arith,
  leb, Bool-cases, inl, inr, length, take, keep, All, All-take, length-take-le, length-take-shorter,
}
use content_fabric.Text.{Text, or_blank}
use content_fabric.Youtube.{Outcome, returned, raised, Answer, with_id, without_id, broken}
use content_fabric.Youtube.Client.{
  is_control, is_late, cut_at, rfind, truncate, sanitize, video_body, max_description_len,
  is_auth_error, on_answer, resumable_upload, resumable_max_retries,
}

abbrev pub IsClean : Text → Type 0
IsClean = All (λ c. is_control c ≡ false)

keep-IsClean : (s : Text) → IsClean (keep (λ c. not (is_control c)) s)
keep-IsClean [] = tt
keep-IsClean (c ∷ s) = elim (Bool-cases (is_control c)) [
  | inl control ↦ rw control (keep-IsClean s)
  | inr plain ↦ rw plain (plain, keep-IsClean s)
]

-- A text within a length, of plain characters.
abbrev Fits : ℕ → Text → Type 0
Fits n s = (length s ≤ n) × IsClean s

cut_at-Fits : (n : ℕ) (i : Option ℕ) (s : Text) → Fits n s → Fits n (cut_at i s)
cut_at-Fits n none s h = h
cut_at-Fits n (some i) s h =
    (omega (arith, length-take-shorter i s, h.0), All-take (λ c. is_control c ≡ false) i s h.1)

truncate-Fits : (n m : ℕ) (s : Text) → Fits n s → Fits n (truncate m s)
truncate-Fits n m s h = elim (Bool-cases (is_late m (rfind 10 s))) [
  | inl line ↦ rw line (cut_at-Fits n (rfind 10 s) s h)
  | inr no_line ↦ elim (Bool-cases (is_late m (rfind 32 s))) [
    | inl space ↦ rw (no_line, space) (cut_at-Fits n (rfind 32 s) s h)
    | inr no_space ↦ rw (no_line, no_space) h
  ]
]

sanitize-Fits : (s : Text) (n : ℕ) → Fits n (sanitize s n)
unfolding sanitize
sanitize-Fits s n =
    let cleaned : Text = keep (λ c. not (is_control c)) s in
    elim (Bool-cases (leb (length cleaned) n)) [
      | inl short ↦ rw short (ground arith, keep-IsClean s)
      | inr long ↦ rw long (
          truncate-Fits n n (take n cleaned) (
            length-take-le n cleaned,
            All-take (λ c. is_control c ≡ false) n cleaned (keep-IsClean s),
          ))
    ]

-- Every request stays within the limits of YouTube: a title of at most 100 characters, a description
-- of at most 5000, and no control characters in the description.
pub video_body-bounds :
    (title : Text) (description : Option Text) (tags : List Text)
    → let body = video_body title description tags in
      (length body.snippet_title ≤ 100)
      × (length body.snippet_description ≤ 5000)
      × IsClean body.snippet_description
unfolding video_body
video_body-bounds title description tags = (
  length-take-le 100 title,
  (sanitize-Fits (or_blank description) max_description_len).0,
  (sanitize-Fits (or_blank description) max_description_len).1,
)

-- The answers to the calls from `call` on, of which `left` may be retried.
resumable_upload-agree :
    (left call : ℕ) (a b : ℕ → Answer)
    → ((i : ℕ) → i ≤ call + left → a i ≡ b i)
    → resumable_upload left call a ≡ resumable_upload left call b
unfolding resumable_upload
resumable_upload-agree zero call a b h = ap (on_answer 0 (raised [])) (h call (omega arith))
resumable_upload-agree (suc left) call a b h =
    ap (on_answer (suc left) (resumable_upload left (suc call) a)) (h call (omega arith))
    ∙ ap (λ again. on_answer (suc left) again (b call))
        (resumable_upload-agree left (suc call) a b (λ i le. h i (omega arith)))

-- An upload makes at most four calls: only the first four answers matter to its outcome.
pub resumable_upload-calls :
    (a b : ℕ → Answer)
    → ((i : ℕ) → i < 4 → a i ≡ b i)
    → resumable_upload resumable_max_retries 0 a ≡ resumable_upload resumable_max_retries 0 b
resumable_upload-calls a b h = resumable_upload-agree 3 0 a b (λ i le. h i (omega arith))

-- A failure of the network, after which the loop goes on.
abbrev pub IsTransient : Answer → Type 0
IsTransient (broken err) = is_auth_error err ≡ false
IsTransient _ = ⊥

on_answer-IsTransient :
    (left : ℕ) (again : Outcome (Option Text)) (a : Answer)
    → IsTransient a
    → on_answer (suc left) again a ≡ again
on_answer-IsTransient left again (with_id v) h = absurd h
on_answer-IsTransient left again (without_id response) h = absurd h
on_answer-IsTransient left again (broken err) h = rw h (ground arith)

recovers :
    (left call k j : ℕ) (answers : ℕ → Answer) (video_id : Text)
    → j ≡ call + k
    → k ≤ left
    → ((i : ℕ) → call ≤ i → i < j → IsTransient (answers i))
    → answers j ≡ with_id video_id
    → resumable_upload left call answers ≡ returned (some video_id)
unfolding resumable_upload
recovers zero call zero j answers video_id at few fails works =
    let here : call ≡ j = omega (arith, at) in
    ap (on_answer 0 (raised [])) (ap answers here ∙ works)
recovers (suc left) call zero j answers video_id at few fails works =
    let here : call ≡ j = omega (arith, at) in
    ap (on_answer (suc left) (resumable_upload left (suc call) answers)) (ap answers here ∙ works)
recovers zero call (suc k) j answers video_id at few fails works = absurd (omega (arith, few))
recovers (suc left) call (suc k) j answers video_id at few fails works =
    on_answer-IsTransient left _ (answers call) (fails call (omega arith) (omega (arith, at)))
    ∙ recovers left (suc call) k j answers video_id (omega (arith, at)) (omega (arith, few))
        (λ i le lt. fails i (omega (arith, le)) lt) works

-- An upload survives up to three failures that are no authentication errors: if the next call
-- returns a video's id, the upload returns this id.
pub resumable_upload-recovers :
    (k : ℕ) (answers : ℕ → Answer) (video_id : Text)
    → k ≤ 3
    → ((i : ℕ) → i < k → IsTransient (answers i))
    → answers k ≡ with_id video_id
    → resumable_upload resumable_max_retries 0 answers ≡ returned (some video_id)
resumable_upload-recovers k answers video_id few fails works =
    recovers 3 0 k k answers video_id (omega arith) few (λ i le lt. fails i lt) works
