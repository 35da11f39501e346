-- ===== src/Text/Strip.antt =====
-- What `strip` keeps: the characters that are not white space, and at most the length.
use content_fabric.Base.{
  ℕ, ◌≤◌, ◌≡◌, refl, ap, ◌∙◌, Bool, false, not, List, [], ◌∷◌, ◌++◌, arith, Bool-cases, inl, inr,
  length, length-append, keep, keep-append,
}
use content_fabric.Text.{Text}
use content_fabric.Text.Decimal.{is_space, lstrip, strip}
use mathlib.Core.List.{reverse, reverse-reverse, reverse-append, append-nil}

module _ {ℓ} {A : Type ℓ} where
  keep-reverse : (p : A → Bool) (xs : List A) → keep p (reverse xs) ≡ reverse (keep p xs)
  keep-reverse p [] = refl
  keep-reverse p (x ∷ xs) = elim (Bool-cases (p x)) [
    | inl kept ↦ rw kept (
        rw (reverse-append (x ∷ []) xs, reverse-append (x ∷ []) (keep p xs))
          (keep-append p (reverse xs) (x ∷ [])
            ∙ rw kept (ap (λ zs. zs ++ x ∷ []) (keep-reverse p xs))))
    | inr lost ↦ rw lost (
        rw (reverse-append (x ∷ []) xs) (
          keep-append p (reverse xs) (x ∷ [])
          ∙ rw lost (append-nil (keep p (reverse xs)) ∙ keep-reverse p xs)))
  ]

  length-reverse : (xs : List A) → length (reverse xs) ≡ length xs
  length-reverse [] = refl
  length-reverse (x ∷ xs) =
      rw (reverse-append (x ∷ []) xs)
        (length-append (reverse xs) (x ∷ []) ∙ omega (arith, length-reverse xs))

-- the characters that are not white space
abbrev pub letters : Text → Text
letters s = keep (λ c. not (is_space c)) s

pub letters-append : (s t : Text) → letters (s ++ t) ≡ letters s ++ letters t
letters-append s t = keep-append (λ c. not (is_space c)) s t

lstrip-other : (c : ℕ) (s : Text) → is_space c ≡ false → lstrip (c ∷ s) ≡ c ∷ s
unfolding lstrip
lstrip-other c s e = rw e refl

letters-lstrip : (s : Text) → letters (lstrip s) ≡ letters s
unfolding lstrip
letters-lstrip [] = refl
letters-lstrip (c ∷ s) = elim (Bool-cases (is_space c)) [
  | inl space ↦ rw space (letters-lstrip s)
  | inr other ↦ ap letters (lstrip-other c s other)
]

pub letters-strip : (s : Text) → letters (strip s) ≡ letters s
unfolding strip
letters-strip s =
    keep-reverse _ (lstrip (reverse (lstrip s)))
    ∙ ap reverse (letters-lstrip (reverse (lstrip s)) ∙ keep-reverse _ (lstrip s))
    ∙ reverse-reverse (letters (lstrip s))
    ∙ letters-lstrip s

length-lstrip-le : (s : Text) → length (lstrip s) ≤ length s
unfolding lstrip
length-lstrip-le [] = omega arith
length-lstrip-le (c ∷ s) = elim (Bool-cases (is_space c)) [
  | inl space ↦ rw space (omega (arith, length-lstrip-le s))
  | inr other ↦ rw other (omega arith)
]

pub length-strip-le : (s : Text) → length (strip s) ≤ length s
unfolding strip
length-strip-le s = omega (
  arith,
  length-reverse (lstrip (reverse (lstrip s))),
  length-lstrip-le (reverse (lstrip s)),
  length-reverse (lstrip s),
  length-lstrip-le s,
)
