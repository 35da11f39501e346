-- ===== src/Text/Like.antt =====
-- SQL's `LIKE`: `%` stands for any characters, `_` for one, and a backslash takes the next as it is.
-- The collation says which characters count as the same.
use content_fabric.Base.{
  ℕ, Bool, true, false, ◌&&◌, ◌||◌, List, [], ◌∷◌, ◌++◌, ◌==◌, if◌then◌else◌, ◌≡◌, refl, ap, ◌∙◌,
  All, Bool-cases, inl, inr, map,
}
use content_fabric.Text.{Text, backslash}

pub data Wildcard : Type 0 where
  any_run any_one : Wildcard
  exactly : ℕ → Wildcard

abbrev pub wildcard : ℕ → Wildcard
wildcard c = if c == b'%' then any_run else if c == b'_' then any_one else exactly c

unfoldable pub read_pattern : Text → List Wildcard
read_pattern [] = []
read_pattern (c ∷ []) = wildcard c ∷ []
read_pattern (c ∷ d ∷ s) =
    let escape = exactly d ∷ read_pattern s in
    let plain = wildcard c ∷ read_pattern (d ∷ s) in if c == backslash then escape else plain

unfoldable pub matches_pattern : (ℕ → ℕ → Bool) → List Wildcard → Text → Bool
matches_pattern same [] [] = true
matches_pattern same [] (c ∷ s) = false
matches_pattern same (any_run ∷ ps) [] = matches_pattern same ps []
matches_pattern same (any_run ∷ ps) (c ∷ s) =
    matches_pattern same ps (c ∷ s) || matches_pattern same (any_run ∷ ps) s
matches_pattern same (any_one ∷ ps) [] = false
matches_pattern same (any_one ∷ ps) (c ∷ s) = matches_pattern same ps s
matches_pattern same (exactly d ∷ ps) [] = false
matches_pattern same (exactly d ∷ ps) (c ∷ s) = same d c && matches_pattern same ps s

-- `s LIKE pattern`
unfoldable pub like : (ℕ → ℕ → Bool) → Text → Text → Bool
unfolding read_pattern matches_pattern
like same pattern s = matches_pattern same (read_pattern pattern) s

-- No percent sign and no backslash: each character stands for itself, at least.
abbrev pub HasNoEscape : Text → Type 0
HasNoEscape = All (λ c. (c == backslash) ≡ false)

abbrev pub IsPlain : Text → Type 0
IsPlain = All (λ c. ((c == backslash) ≡ false) × ((c == b'%') ≡ false))

read_pattern-plain_char :
    (c : ℕ) (s : Text)
    → (c == backslash) ≡ false
    → read_pattern (c ∷ s) ≡ wildcard c ∷ read_pattern s
unfolding read_pattern
read_pattern-plain_char c [] h = refl
read_pattern-plain_char c (d ∷ s) h = rw h refl

pub read_pattern-plain :
    (w s : Text) → IsPlain w → read_pattern (w ++ s) ≡ map wildcard w ++ read_pattern s
read_pattern-plain [] s h = refl
read_pattern-plain (c ∷ w) s h =
    read_pattern-plain_char c (w ++ s) h.0.0
    ∙ ap (λ ps. wildcard c ∷ ps) (read_pattern-plain w s h.1)

pub read_pattern-percent : (s : Text) → read_pattern (b'%' ∷ s) ≡ any_run ∷ read_pattern s
read_pattern-percent s = read_pattern-plain_char b'%' s refl

module _ (same : ℕ → ℕ → Bool) where
  -- A plain text matches itself.
  pub matches_pattern-plain :
      ((c : ℕ) → same c c ≡ true)
      → (w : Text) (ps : List Wildcard) (s : Text) → IsPlain w
      → matches_pattern same (map wildcard w ++ ps) (w ++ s) ≡ matches_pattern same ps s
  unfolding matches_pattern
  matches_pattern-plain equal [] ps s h = refl
  matches_pattern-plain equal (c ∷ w) ps s h = elim (Bool-cases (c == b'_')) [
    | inl one ↦ rw (h.0.1, one) (matches_pattern-plain equal w ps s h.1)
    | inr other ↦ rw (h.0.1, other, equal c) (matches_pattern-plain equal w ps s h.1)
  ]

  -- A percent sign skips any text.
  pub matches_pattern-skip :
      (pre : Text) (ps : List Wildcard) (s : Text)
      → matches_pattern same ps s ≡ true
      → matches_pattern same (any_run ∷ ps) (pre ++ s) ≡ true
  unfolding matches_pattern
  matches_pattern-skip [] ps [] h = h
  matches_pattern-skip [] ps (c ∷ s) h = rw h refl
  matches_pattern-skip (c ∷ pre) ps s h =
      elim (Bool-cases (matches_pattern same ps (c ∷ (pre ++ s)))) [
        | inl here ↦ rw here refl
        | inr later ↦ rw later (matches_pattern-skip pre ps s h)
      ]

  pub matches_pattern-rest : (s : Text) → matches_pattern same (any_run ∷ []) s ≡ true
  unfolding matches_pattern
  matches_pattern-rest [] = refl
  matches_pattern-rest (c ∷ s) = matches_pattern-rest s
