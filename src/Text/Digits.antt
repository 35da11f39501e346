-- ===== src/Text/Digits.antt =====
-- How the decimal digits of a number grow with it.
use content_fabric.Base.{
  ℕ, zero, suc, ◌+◌, ◌*◌, ◌/◌, ◌%◌, ◌<◌, ◌≡◌, refl, ap, ◌∙◌, inl, inr, false, [], ◌∷◌, ◌++◌, arith,
  ltb, Bool-cases,
}
use content_fabric.Text.{Text}
use content_fabric.Text.Decimal.{decimal, emit}

emit-append : (f n : ℕ) (a out : Text) → emit f n (a ++ out) ≡ emit f n a ++ out
unfolding emit
emit-append zero n a out = refl
emit-append (suc f) n a out = elim (Bool-cases (ltb n 10)) [
  | inl small ↦ rw small refl
  | inr big ↦ rw big (emit-append f (n / 10) ((b'0' + n % 10) ∷ a) out)
]

emit-fuel : (f g n : ℕ) (out : Text) → n < f → n < g → emit f n out ≡ emit g n out
unfolding emit
emit-fuel zero g n out h k = elim h [ ]
emit-fuel (suc f) zero n out h k = elim k [ ]
emit-fuel (suc f) (suc g) n out h k = elim (Bool-cases (ltb n 10)) [
  | inl small ↦ rw small refl
  | inr big ↦ rw big (emit-fuel f g (n / 10) ((b'0' + n % 10) ∷ out) (ground arith) (ground arith))
]

emit-big :
    (f n d : ℕ) (out : Text)
    → 0 < n
    → d < 10
    → emit (suc f) (10 * n + d) out ≡ emit f n ((b'0' + d) ∷ out)
unfolding emit
emit-big f n d out h k =
    let big : ltb (10 * n + d) 10 ≡ false = ground arith in
    let last : (10 * n + d) % 10 ≡ d = omega arith in
    let first : (10 * n + d) / 10 ≡ n = omega arith in rw (big, last, first) refl

-- A further digit is written behind the others.
pub decimal-more :
    (n d : ℕ) → 0 < n → d < 10 → decimal (10 * n + d) ≡ decimal n ++ ((b'0' + d) ∷ [])
unfolding decimal
decimal-more n d h k =
    emit-big (10 * n + d) n d [] h k
    ∙ emit-append (10 * n + d) n [] ((b'0' + d) ∷ [])
    ∙ ap (λ r. r ++ ((b'0' + d) ∷ []))
        (emit-fuel (10 * n + d) (suc n) n [] (omega arith) (omega arith))
