-- ===== src/Speech/Content.antt =====
-- What the chunks of a text say.
use content_fabric.Base.{
  ℕ, zero, suc, ◌≤◌, ◌<◌, ◌≡◌, refl, sym, ap, ◌∙◌, List, [], ◌∷◌, ◌++◌, arith, Bool-cases, inl, inr,
  map, ltb, leb, length, take, drop, take-append-drop,
}
use content_fabric.Text.{Text}
use content_fabric.Text.Split.{push}
use content_fabric.Text.Decimal.{is_space, strip}
use content_fabric.Text.Strip.{letters, letters-strip, letters-append}
use content_fabric.Speech.{
  Seen, inside, ended, gap, next, place, split_from, slices, flush, candidate, add_sentence,
  add_sentences, non_blank, finish, sentences, chunk_text,
}
use mathlib.Core.List.{append_assoc, append-nil}

-- the characters of the chunks, in order, that are not white space
abbrev pub spoken : List Text → Text
spoken [] = []
spoken (s ∷ ss) = letters s ++ spoken ss

spoken-append : (ss ts : List Text) → spoken (ss ++ ts) ≡ spoken ss ++ spoken ts
spoken-append [] ts = refl
spoken-append (s ∷ ss) ts =
    ap (λ r. letters s ++ r) (spoken-append ss ts)
    ∙ sym (append_assoc (letters s) (spoken ss) (spoken ts))

spoken-push : (c : ℕ) (ss : List Text) → spoken (push c ss) ≡ letters (c ∷ []) ++ spoken ss
spoken-push c [] = refl
spoken-push c (s ∷ ss) =
    ap (λ r. r ++ spoken ss) (letters-append (c ∷ []) s)
    ∙ append_assoc (letters (c ∷ [])) (letters s) (spoken ss)

spoken-place :
    (seen : Seen) (c : ℕ) (ss : List Text)
    → spoken (place seen c ss) ≡ letters (c ∷ []) ++ spoken ss
spoken-place inside c ss = spoken-push c ss
spoken-place ended c ss = elim (Bool-cases (is_space c)) [
  | inl space ↦ rw space refl
  | inr other ↦ rw other (rw other at (spoken-push c ss))
]
spoken-place gap c ss = elim (Bool-cases (is_space c)) [
  | inl space ↦ rw space refl
  | inr other ↦ rw other (rw other at (spoken-push c ss))
]

spoken-split_from : (seen : Seen) (s : Text) → spoken (split_from seen s) ≡ letters s
unfolding split_from
spoken-split_from seen [] = refl
spoken-split_from seen (c ∷ s) =
    spoken-place seen c (split_from (next seen c) s)
    ∙ ap (λ r. letters (c ∷ []) ++ r) (spoken-split_from (next seen c) s)
    ∙ sym (letters-append (c ∷ []) s)

length-drop-le : (n : ℕ) (s : Text) → length (drop n s) ≤ length s
length-drop-le zero s = omega arith
length-drop-le (suc n) [] = omega arith
length-drop-le (suc n) (c ∷ s) = omega (arith, length-drop-le n s)

spoken-slices :
    (fuel max_len : ℕ) (s : Text)
    → 0 < max_len
    → length s ≤ fuel
    → spoken (slices fuel max_len s) ≡ letters s
unfolding slices
spoken-slices zero max_len [] pos h = refl
spoken-slices zero max_len (c ∷ s) pos h = absurd (omega arith)
spoken-slices (suc fuel) max_len [] pos h = refl
spoken-slices (suc fuel) zero (c ∷ s) pos h = absurd (omega arith)
spoken-slices (suc fuel) (suc n) (c ∷ s) pos h =
    ap (λ r. letters (c ∷ take n s) ++ r)
      (spoken-slices fuel (suc n) (drop n s) pos (omega (arith, length-drop-le n s)))
    ∙ sym (letters-append (c ∷ take n s) (drop n s))
    ∙ ap letters (ap (λ r. c ∷ r) (take-append-drop n s))

spoken-map-strip : (ss : List Text) → spoken (map strip ss) ≡ spoken ss
spoken-map-strip [] = refl
spoken-map-strip (s ∷ ss) = rw (letters-strip s, spoken-map-strip ss) refl

spoken-non_blank : (ss : List Text) → spoken (non_blank ss) ≡ spoken ss
spoken-non_blank [] = refl
spoken-non_blank ([] ∷ ss) = spoken-non_blank ss
spoken-non_blank ((c ∷ s) ∷ ss) = ap (λ r. letters (c ∷ s) ++ r) (spoken-non_blank ss)

spoken-flush :
    (chunks : List Text) (current : Text)
    → spoken (flush chunks current) ≡ spoken chunks ++ letters current
spoken-flush chunks [] = sym (append-nil (spoken chunks))
spoken-flush chunks (c ∷ s) =
    spoken-append chunks (strip (c ∷ s) ∷ [])
    ∙ ap (λ r. spoken chunks ++ r) (append-nil (letters (strip (c ∷ s))) ∙ letters-strip (c ∷ s))

letters-candidate :
    (current sent : Text) → letters (candidate current sent) ≡ letters current ++ letters sent
letters-candidate [] sent = refl
letters-candidate (c ∷ s) sent =
    letters-strip ((c ∷ s) ++ 32 ∷ sent) ∙ letters-append (c ∷ s) (32 ∷ sent)

-- the characters in a state of the loop
abbrev so_far : List Text × Text → Text
so_far (chunks, current) = spoken chunks ++ letters current

so_far-add_sentence :
    (max_len : ℕ) (sent : Text) (state : List Text × Text)
    → 0 < max_len
    → so_far (add_sentence max_len sent state) ≡ so_far state ++ letters sent
so_far-add_sentence max_len [] (chunks, current) pos = sym (append-nil (so_far (chunks, current)))
so_far-add_sentence max_len (c ∷ s) (chunks, current) pos =
    elim (Bool-cases (ltb max_len (length (c ∷ s)))) [
      | inl long ↦ rw long (
          append-nil _
          ∙ spoken-append (flush chunks current)
              (map strip (slices (length (c ∷ s)) max_len (c ∷ s)))
          ∙ rw
              (
                spoken-flush chunks current,
                spoken-map-strip (slices (length (c ∷ s)) max_len (c ∷ s)),
                spoken-slices (length (c ∷ s)) max_len (c ∷ s) pos (omega arith),
              )
              refl)
      | inr short ↦ elim (Bool-cases (leb (length (candidate current (c ∷ s))) max_len)) [
        | inl fits ↦
            rw (short, fits)
              (ap (λ r. spoken chunks ++ r) (letters-candidate current (c ∷ s))
                ∙ sym (append_assoc (spoken chunks) (letters current) (letters (c ∷ s))))
        | inr full ↦ rw (short, full) (ap (λ r. r ++ letters (c ∷ s)) (spoken-flush chunks current))
      ]
    ]

so_far-add_sentences :
    (max_len : ℕ) (sents : List Text) (state : List Text × Text)
    → 0 < max_len
    → so_far (add_sentences max_len sents state) ≡ so_far state ++ spoken sents
unfolding add_sentences
so_far-add_sentences max_len [] state pos = sym (append-nil (so_far state))
so_far-add_sentences max_len (sent ∷ sents) state pos =
    so_far-add_sentences max_len sents (add_sentence max_len sent state) pos
    ∙ ap (λ r. r ++ spoken sents) (so_far-add_sentence max_len sent state pos)
    ∙ append_assoc (so_far state) (letters sent) (spoken sents)

spoken-finish : (state : List Text × Text) → spoken (finish state) ≡ so_far state
spoken-finish (chunks, current) =
    spoken-non_blank (flush chunks current) ∙ spoken-flush chunks current

pub spoken-chunk_text :
    (max_len : ℕ) (s : Text) → 0 < max_len → spoken (chunk_text max_len s) ≡ letters s
unfolding chunk_text
spoken-chunk_text max_len [] pos = refl
spoken-chunk_text max_len (c ∷ s) pos = elim (Bool-cases (leb (length (c ∷ s)) max_len)) [
  | inl fits ↦ rw fits (append-nil (letters (c ∷ s)))
  | inr long ↦ rw long (
      spoken-finish (add_sentences max_len (sentences (c ∷ s)) ([], []))
      ∙ so_far-add_sentences max_len (sentences (c ∷ s)) ([], []) pos
      ∙ spoken-split_from inside (c ∷ s))
]
