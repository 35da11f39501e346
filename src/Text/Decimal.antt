-- ===== src/Text/Decimal.antt =====
-- The decimal digits that `str(int)` writes and `int(str)` reads, and the round trip. `int` is
-- modelled on ASCII text without underscores: white space around it is dropped, a sign may stand
-- in front, and all else must be digits.
use content_fabric.Base.{
  ℕ, zero, suc, ◌+◌, ◌-◌, ◌*◌, ◌/◌, ◌%◌, ◌<◌, ◌≡◌, refl, ◌∙◌, ap, inl, inr, Bool, true, ◌&&◌, ◌||◌,
  Option, none, some, [], ◌∷◌, arith, ltb, leb, ◌==◌, if◌then◌else◌, Bool-cases, All, All-append,
  ltb→lt,
}
use content_fabric.Text.{Text}
use mathlib.Core.Option
use mathlib.Core.List.{reverse, reverse-reverse, reverse-append}

-- `negsuc n` is -(n + 1).
pub data ℤ : Type 0 where
  pos : ℕ → ℤ
  negsuc : ℕ → ℤ

abbrev pub is_digit : ℕ → Bool
is_digit c = leb b'0' c && leb c b'9'

-- The digits of `n`, from the last one back, before `out`.
unfoldable pub emit : ℕ → ℕ → Text → Text
emit zero n out = out
emit (suc f) n out =
    let rest = emit f (n / 10) ((b'0' + n % 10) ∷ out) in
    if ltb n 10 then (b'0' + n) ∷ out else rest

-- `str(n)`
unfoldable pub decimal : ℕ → Text
unfolding emit
decimal n = emit (suc n) n []

-- The rest of a run of digits, with the value read so far; anything else is a ValueError.
unfoldable pub scan : Text → ℕ → Option ℕ
scan [] n = some n
scan (c ∷ s) n = if is_digit c then scan s (n * 10 + (c - b'0')) else none

unfoldable pub parse_digits : Text → Option ℕ
unfolding scan
parse_digits [] = none
parse_digits (c ∷ s) = scan (c ∷ s) 0

-- `c.isspace()`
abbrev pub is_space : ℕ → Bool
is_space c =
    (leb 9 c && leb c 13)
    || (leb 28 c && leb c 32)
    || (c == 133)
    || (c == 160)
    || (c == 5760)
    || (leb 8192 c && leb c 8202)
    || (c == 8232)
    || (c == 8233)
    || (c == 8239)
    || (c == 8287)
    || (c == 12288)

unfoldable pub lstrip : Text → Text
lstrip [] = []
lstrip (c ∷ s) = if is_space c then lstrip s else c ∷ s

-- `s.strip()`
unfoldable pub strip : Text → Text
unfolding lstrip
strip s = reverse (lstrip (reverse (lstrip s)))

abbrev pub negate : ℕ → ℤ
negate zero = pos 0
negate (suc n) = negsuc n

abbrev pub signed : Text → Option ℤ
signed [] = none
signed (c ∷ s) =
    if c == b'-'
    then Option.map negate (parse_digits s)
    else if c == b'+'
    then Option.map pos (parse_digits s)
    else Option.map pos (parse_digits (c ∷ s))

-- `int(s)`, with `none` for the ValueError
unfoldable pub parse_int : Text → Option ℤ
unfolding strip parse_digits
parse_int s = signed (strip s)

scan-digit : (d m : ℕ) (out : Text) → d < 10 → scan ((b'0' + d) ∷ out) m ≡ scan out (m * 10 + d)
unfolding scan
scan-digit d m out h = ground (arith, ap (scan out) (digit d m h))
  where
    digit : (d m : ℕ) → d < 10 → m * 10 + (b'0' + d - b'0') ≡ m * 10 + d
    digit d m h = omega arith

-- Scanning the written digits and then `out` is scanning `out` from the number.
scan-emit : (f n : ℕ) (out : Text) → n < f → scan (emit f n out) 0 ≡ scan out n
unfolding emit
scan-emit zero n out h = elim h [ ]
scan-emit (suc f) n out h = elim (Bool-cases (ltb n 10)) [
  | inl small ↦ rw small (scan-digit n 0 out (ltb→lt n 10 small) ∙ ap (scan out) (omega arith))
  | inr big ↦ rw big (
      scan-emit f (n / 10) ((b'0' + n % 10) ∷ out) (ground arith)
      ∙ scan-digit (n % 10) (n / 10) out (omega arith)
      ∙ ap (scan out) (omega arith))
]

emit-digits :
    (f n : ℕ) (out : Text)
    → All (λ c. is_digit c ≡ true) out
    → All (λ c. is_digit c ≡ true) (emit f n out)
unfolding emit
emit-digits zero n out h = h
emit-digits (suc f) n out h = elim (Bool-cases (ltb n 10)) [
  | inl small ↦ rw small (ground arith, h)
  | inr big ↦ rw big (emit-digits f (n / 10) ((b'0' + n % 10) ∷ out) (ground arith, h))
]

-- Every character of a written number is a digit.
pub decimal-digits : (n : ℕ) → All (λ c. is_digit c ≡ true) (decimal n)
unfolding decimal
decimal-digits n = emit-digits (suc n) n [] tt

abbrev pub AllDigits : Text → Type 0
AllDigits = All (λ c. is_digit c ≡ true)

All-reverse : (s : Text) → AllDigits s → AllDigits (reverse s)
All-reverse [] h = tt
All-reverse (c ∷ s) h =
    rw (reverse-append (c ∷ []) s)
      (All-append (λ c. is_digit c ≡ true) (reverse s) (c ∷ []) (All-reverse s h.1) (h.0, tt))

lstrip-digits : (s : Text) → AllDigits s → lstrip s ≡ s
unfolding lstrip
lstrip-digits [] h = refl
lstrip-digits (c ∷ s) h = ground arith

-- A text of digits has no space to strip.
pub strip-digits : (s : Text) → AllDigits s → strip s ≡ s
unfolding strip
strip-digits s h =
    rw (lstrip-digits s h, lstrip-digits (reverse s) (All-reverse s h)) (reverse-reverse s)

signed-digits : (s : Text) → AllDigits s → signed s ≡ Option.map pos (parse_digits s)
unfolding parse_digits
signed-digits [] h = refl
signed-digits (c ∷ s) h = ground arith

emit-cons : (f n : ℕ) (out : Text) → n < f → (c : ℕ) × (s : Text) × (emit f n out ≡ c ∷ s)
unfolding emit
emit-cons zero n out h = elim h [ ]
emit-cons (suc f) n out h = elim (Bool-cases (ltb n 10)) [
  | inl small ↦ (b'0' + n, out, rw small)
  | inr big ↦ rw big (emit-cons f (n / 10) ((b'0' + n % 10) ∷ out) (ground arith))
]

parse_digits-decimal : (n : ℕ) → parse_digits (decimal n) ≡ some n
unfolding decimal
parse_digits-decimal n =
    let (c, s, e) = emit-cons (suc n) n [] (omega arith) in
    rw e (unfold parse_digits in (rw e at (scan-emit (suc n) n [] (omega arith)))) ∙ refl

-- `int(str(n)) == n`
pub parse_int-decimal : (n : ℕ) → parse_int (decimal n) ≡ some (pos n)
unfolding parse_int
parse_int-decimal n =
    rw (strip-digits (decimal n) (decimal-digits n), signed-digits (decimal n) (decimal-digits n))
      (ap (Option.map pos) (parse_digits-decimal n))
