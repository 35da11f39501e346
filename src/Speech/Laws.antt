-- ===== src/Speech/Laws.antt =====
-- The length of the chunks of a text, and what they say.
use content_fabric.Base.{
  ℕ, zero, suc, ◌≤◌, ◌<◌, ◌≡◌, true, false, List, [], ◌∷◌, arith, Bool-cases, inl, inr, map, ltb,
  leb, All, All-append, length, length-take-le, drop,
}
use content_fabric.Text.{Text}
use content_fabric.Text.Decimal.{strip}
use content_fabric.Text.Strip.{letters, length-strip-le}
use content_fabric.Speech.{
  slices, flush, candidate, add_sentence, add_sentences, non_blank, sentences, chunk_text,
}
use content_fabric.Speech.Content.{spoken, spoken-chunk_text}

All-slices : (fuel max_len : ℕ) (s : Text) → All (λ t. length t ≤ max_len) (slices fuel max_len s)
unfolding slices
All-slices zero max_len s = tt
All-slices (suc fuel) max_len [] = tt
All-slices (suc fuel) max_len (c ∷ s) =
    (length-take-le max_len (c ∷ s), All-slices fuel max_len (drop max_len (c ∷ s)))

All-map-strip :
    (max_len : ℕ) (ss : List Text)
    → All (λ t. length t ≤ max_len) ss
    → All (λ t. length t ≤ max_len) (map strip ss)
All-map-strip max_len [] h = tt
All-map-strip max_len (s ∷ ss) h =
    (omega (arith, length-strip-le s, h.0), All-map-strip max_len ss h.1)

All-flush :
    (max_len : ℕ) (chunks : List Text) (current : Text)
    → All (λ t. length t ≤ max_len) chunks
    → length current ≤ max_len
    → All (λ t. length t ≤ max_len) (flush chunks current)
All-flush max_len chunks [] h k = h
All-flush max_len chunks (c ∷ s) h k =
    All-append _ chunks (strip (c ∷ s) ∷ []) h (omega (arith, length-strip-le (c ∷ s)), tt)

-- the loop's state keeps to the limit
abbrev WithinLimit : ℕ → List Text × Text → Type 0
WithinLimit max_len (chunks, current) =
    All (λ t. length t ≤ max_len) chunks × (length current ≤ max_len)

add_sentence-WithinLimit :
    (max_len : ℕ) (sent : Text) (state : List Text × Text)
    → WithinLimit max_len state
    → WithinLimit max_len (add_sentence max_len sent state)
add_sentence-WithinLimit max_len [] (chunks, current) h = h
add_sentence-WithinLimit max_len (c ∷ s) (chunks, current) h =
    elim (Bool-cases (ltb max_len (length (c ∷ s)))) [
      | inl long ↦ rw long (
        All-append _ (flush chunks current) (map strip (slices (length (c ∷ s)) max_len (c ∷ s)))
            (All-flush max_len chunks current h.0 h.1)
            (All-map-strip max_len (slices (length (c ∷ s)) max_len (c ∷ s))
              (All-slices (length (c ∷ s)) max_len (c ∷ s))),
        omega arith,
      )
      | inr short ↦ elim (Bool-cases (leb (length (candidate current (c ∷ s))) max_len)) [
        | inl fits ↦ rw (short, fits) (h.0, leb→le _ max_len fits)
        | inr full ↦
            rw (short, full) (All-flush max_len chunks current h.0 h.1, not_ltb→le max_len _ short)
      ]
    ]
  where
    leb→le : (n m : ℕ) → leb n m ≡ true → n ≤ m
    leb→le n m e = ground arith

    not_ltb→le : (n m : ℕ) → ltb n m ≡ false → m ≤ n
    not_ltb→le n m e = ground arith

add_sentences-WithinLimit :
    (max_len : ℕ) (sents : List Text) (state : List Text × Text)
    → WithinLimit max_len state
    → WithinLimit max_len (add_sentences max_len sents state)
unfolding add_sentences
add_sentences-WithinLimit max_len [] state h = h
add_sentences-WithinLimit max_len (sent ∷ sents) state h =
    add_sentences-WithinLimit max_len sents (add_sentence max_len sent state)
      (add_sentence-WithinLimit max_len sent state h)

-- neither blank nor too long
abbrev pub IsChunk : ℕ → Text → Type 0
IsChunk max_len s = (0 < length s) × (length s ≤ max_len)

All-non_blank :
    (max_len : ℕ) (ss : List Text)
    → All (λ t. length t ≤ max_len) ss
    → All (IsChunk max_len) (non_blank ss)
All-non_blank max_len [] h = tt
All-non_blank max_len ([] ∷ ss) h = All-non_blank max_len ss h.1
All-non_blank max_len ((c ∷ s) ∷ ss) h = ((omega arith, h.0), All-non_blank max_len ss h.1)

chunk_text-IsChunk : (max_len : ℕ) (s : Text) → All (IsChunk max_len) (chunk_text max_len s)
unfolding chunk_text
chunk_text-IsChunk max_len [] = tt
chunk_text-IsChunk max_len (c ∷ s) = elim (Bool-cases (leb (length (c ∷ s)) max_len)) [
  | inl fits ↦ rw fits ((omega arith, ground arith), tt)
  | inr long ↦ rw long (
      let h = add_sentences-WithinLimit max_len (sentences (c ∷ s)) ([], []) (tt, omega arith) in
      All-non_blank max_len _ (All-flush max_len _ _ h.0 h.1))
]

-- When the limit is above zero, every chunk has at least one character and at most the limit, and the
-- chunks together hold, in order, the characters of the text that are not white space.
pub chunk_text_lem :
    (max_len : ℕ) (s : Text)
    → 0 < max_len
    → All (IsChunk max_len) (chunk_text max_len s) × (spoken (chunk_text max_len s) ≡ letters s)
chunk_text_lem max_len s pos = (chunk_text-IsChunk max_len s, spoken-chunk_text max_len s pos)
