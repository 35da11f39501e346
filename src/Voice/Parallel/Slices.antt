-- ===== src/Voice/Parallel/Slices.antt =====
-- The chunks of `split_audio` hold every frame once, in order, and none is empty or too long.
use content_fabric.Base.{
  ℕ, zero, suc, ◌+◌, ◌-◌, ◌*◌, ◌≤◌, ◌<◌, leb, ◌==◌, ==_iff, some, ◌≡◌, refl, sym, ap, ◌∙◌, inl, inr,
  List, [], ◌∷◌, ◌++◌, length, take, drop, take-append-drop, All, Bool-cases, arith,
}
use content_fabric.Text.{Text}
use content_fabric.Voice.{Chunk}
use content_fabric.Voice.Parallel.{num_chunks, end_of, chunk_at, chunks_from, split_audio}
use mathlib.Core.List.{append-nil}
use native.Mathlib.Nat.{add-mul, lt-div-mul-add, div-mul-le_self}

module _ {A : Type 0} where
  drop_all : (n : ℕ) (xs : List A) → length xs ≤ n → drop n xs ≡ []
  drop_all zero [] h = refl
  drop_all zero (x ∷ xs) h = absurd (omega (arith, h))
  drop_all (suc n) [] h = refl
  drop_all (suc n) (x ∷ xs) h = drop_all n xs (omega (arith, h))

  take_all : (n : ℕ) (xs : List A) → length xs ≤ n → take n xs ≡ xs
  take_all zero [] h = refl
  take_all zero (x ∷ xs) h = absurd (omega (arith, h))
  take_all (suc n) [] h = refl
  take_all (suc n) (x ∷ xs) h = ap (λ ys. x ∷ ys) (take_all n xs (omega (arith, h)))

  drop-nil : (n : ℕ) → drop {A = A} n [] ≡ []
  drop-nil zero = refl
  drop-nil (suc n) = refl

  drop-drop : (m n : ℕ) (xs : List A) → drop m (drop n xs) ≡ drop (n + m) xs
  drop-drop m zero xs = let e : 0 + m ≡ m = omega arith in rw e refl
  drop-drop m (suc n) [] = drop-nil m ∙ sym (drop-nil (suc n + m))
  drop-drop m (suc n) (x ∷ xs) =
      let e : suc n + m ≡ suc (n + m) = omega arith in rw e (drop-drop m n xs)

  length-drop : (n : ℕ) (xs : List A) → length (drop n xs) ≡ length xs - n
  length-drop zero xs = omega arith
  length-drop (suc n) [] = omega arith
  length-drop (suc n) (x ∷ xs) = omega (arith, length-drop n xs)

  length-take : (n : ℕ) (xs : List A) → n ≤ length xs → length (take n xs) ≡ n
  length-take zero xs h = refl
  length-take (suc n) [] h = absurd (omega (arith, h))
  length-take (suc n) (x ∷ xs) h = omega (arith, length-take n xs (omega (arith, h)))

  -- the frames of the chunks, one after the other
  abbrev pub frames : List (Chunk × List A) → List A
  frames [] = []
  frames ((c, audio) ∷ chunks) = audio ++ frames chunks

-- A chunk that is neither empty nor too long, with the frames from its start to its end.
abbrev pub IsPiece : {A : Type 0} → ℕ → Chunk × List A → Type 0
IsPiece c (chunk, piece) =
    (0 < length piece)
    × (length piece ≤ c)
    × (length piece ≡ chunk.end_sample - chunk.start_sample)
    × (chunk.start_sample ≡ chunk.index * c)

-- The indices go up by one.
abbrev pub CountsFrom : {A : Type 0} → ℕ → List (Chunk × List A) → Type 0
CountsFrom i [] = Unit
CountsFrom i ((chunk, piece) ∷ chunks) = (chunk.index ≡ i) × CountsFrom (i + 1) chunks

next_start : (i c : ℕ) → (i + 1) * c ≡ i * c + c
next_start i c = omega (arith, add-mul i 1 c)

module _ {A : Type 0} (output_dir : Text) (sample_rate c : ℕ) (audio : List A) where
  -- A slice and what follows its full length are what follows its start.
  slice-rest :
      (i : ℕ)
      → take (end_of output_dir sample_rate c audio i - i * c) (drop (i * c) audio)
          ++ drop ((i + 1) * c) audio
        ≡ drop (i * c) audio
  slice-rest i = elim (Bool-cases (leb ((i + 1) * c) (length audio))) [
    | inl inside ↦
        let whole : i * c + c - i * c ≡ c = omega arith in
        rw (inside, next_start i c, whole, sym (drop-drop c (i * c) audio))
          (take-append-drop c (drop (i * c) audio))
    | inr beyond ↦
        rw
          (
            beyond,
            take_all (length audio - i * c) (drop (i * c) audio)
                (omega (arith, length-drop (i * c) audio)),
            drop_all ((i + 1) * c) audio (ground arith),
          )
          (append-nil (drop (i * c) audio))
  ]

  frames-chunks_from :
      (i n : ℕ)
      → length audio ≤ (i + n) * c
      → frames (chunks_from output_dir sample_rate c audio i n) ≡ drop (i * c) audio
  unfolding chunks_from
  frames-chunks_from i zero h =
      sym (drop_all (i * c) audio (let e : i + 0 ≡ i = omega arith in rw e at h))
  frames-chunks_from i (suc n) h =
      let e : i + suc n ≡ i + 1 + n = omega arith in
      ap
        (λ rest.
          take (end_of output_dir sample_rate c audio i - i * c) (drop (i * c) audio) ++ rest)
        (frames-chunks_from (i + 1) n (rw e at h))
      ∙ slice-rest i

  chunk_at-IsPiece :
      (i : ℕ) → 0 < c → i * c < length audio → IsPiece c (chunk_at output_dir sample_rate c audio i)
  chunk_at-IsPiece i pos inside =
      let long =
        length-take (end_of output_dir sample_rate c audio i - i * c) (drop (i * c) audio)
          (ground (arith, length-drop (i * c) audio)) in
      rw long (ground (arith, next_start i c), ground (arith, next_start i c), refl, refl)

  chunks_from-IsPiece :
      (i n : ℕ)
      → 0 < c
      → (i + n) * c < length audio + c
      → All (IsPiece c) (chunks_from output_dir sample_rate c audio i n)
  unfolding chunks_from
  chunks_from-IsPiece i zero pos h = tt
  chunks_from-IsPiece i (suc n) pos h =
      let e : i + suc n ≡ i + 1 + n = omega arith in
      let moved = rw e at h in
      (
        chunk_at-IsPiece i pos (omega (arith, moved, add-mul (i + 1) n c, next_start i c)),
        chunks_from-IsPiece (i + 1) n pos moved,
      )

  chunks_from-CountsFrom : (i n : ℕ) → CountsFrom i (chunks_from output_dir sample_rate c audio i n)
  unfolding chunks_from
  chunks_from-CountsFrom i zero = tt
  chunks_from-CountsFrom i (suc n) = (refl, chunks_from-CountsFrom (i + 1) n)

num_chunks-enough : (total c : ℕ) → 0 < c → total ≤ num_chunks total c * c
unfolding num_chunks
num_chunks-enough total c pos = omega (arith, lt-div-mul-add {a = total + (c - 1)} pos)

num_chunks-least : (total c : ℕ) → 0 < c → num_chunks total c * c < total + c
unfolding num_chunks
num_chunks-least total c pos = omega (arith, div-mul-le_self (total + (c - 1)) c)

-- What a split audio is: the frames of its chunks, in order, are the audio, each chunk is a piece,
-- and the indices count from 0.
abbrev pub IsSplit : {A : Type 0} → ℕ → List A → List (Chunk × List A) → Type 0
IsSplit c audio chunks = (frames chunks ≡ audio) × All (IsPiece c) chunks × CountsFrom 0 chunks

-- When a chunk lasts at least a sample, an audio is split into chunks whose frames, in order, are
-- the audio; each has at least one frame and at most the samples of a chunk, and starts at its
-- index times that number, and the indices count from 0.
pub split_audio-IsSplit :
    {A : Type 0} (output_dir : Text) (minutes sample_rate : ℕ) (audio : List A)
    → 0 < minutes * 60 * sample_rate
    → (chunks : List (Chunk × List A)) × (split_audio output_dir minutes sample_rate audio
        ≡ some chunks)
      × IsSplit (minutes * 60 * sample_rate) audio chunks
unfolding split_audio
split_audio-IsSplit output_dir minutes sample_rate audio pos =
    let c = minutes * 60 * sample_rate in
    let count = num_chunks (length audio) c in
    let start : 0 * c ≡ 0 = omega arith in
    let cut = chunks_from output_dir sample_rate c audio 0 count in
    elim (Bool-cases (c == 0)) [
      | inl none_left ↦ absurd (omega (arith, pos, (==_iff c 0).0 none_left))
      | inr some_left ↦ rw some_left (
        cut,
        refl,
        (
          rw start at (
              frames-chunks_from output_dir sample_rate c audio 0 count
                (omega (arith, num_chunks-enough (length audio) c pos))),
          chunks_from-IsPiece output_dir sample_rate c audio 0 count pos
              (omega (arith, num_chunks-least (length audio) c pos)),
          chunks_from-CountsFrom output_dir sample_rate c audio 0 count,
        ),
      )
    ]
