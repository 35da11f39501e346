-- ===== src/Voice/Parallel/Joined.antt =====
-- How long the joined chunks and the mix are, and which chunks cannot be joined.
use content_fabric.Base.{
  ℕ, ◌+◌, ◌-◌, ◌*◌, ◌≤◌, ◌<◌, ltb, lt→ltb, Bool, Option, some, ◌≡◌, refl, sym, ap, ◌∙◌, some-eq,
  inl, inr, List, [], ◌∷◌, ◌++◌, map, All, length, Bool-cases, if◌then◌else◌, arith,
}
use content_fabric.Text.{Text}
use mathlib.Core.Path.{subst}
use native.Mathlib.Nat.{mul-suc}
use content_fabric.Youtube.{Outcome, returned, raised}
use content_fabric.Voice.{Chunk, Processed, Pydub}
use content_fabric.Voice.Parallel.{
  Completes, future_of, successful, appended, append_all, reassemble_chunks, padded, mix_audio,
  process_chunks_parallel, process_with_background, split_audio, mixed_with,
}
use content_fabric.Voice.Parallel.Slices.{CountsFrom, split_audio-IsSplit}
use content_fabric.Voice.Parallel.Order.{results, process_chunks_parallel-any_order}

-- What pydub documents of lengths: a crossfade counts once, and needs that length on both sides.
pub record KeepsDurations {B : Type 0} (pydub : Pydub B) : Type 0 where
  pub append_long :
      (a b : B) (ms : ℕ)
      → ms ≤ pydub.duration a
      → ms ≤ pydub.duration b
      → (c : B) × (pydub.append a b ms ≡ returned c)
        × (pydub.duration c + ms ≡ pydub.duration a + pydub.duration b)
  pub append_short :
      (a b : B) (ms : ℕ)
      → pydub.duration b < ms
      → (error : Text) × (pydub.append a b ms ≡ raised error)
  pub concat_both :
      (a b : B) → pydub.duration (pydub.concat a b) ≡ pydub.duration a + pydub.duration b
  pub silent_for : (n : ℕ) → pydub.duration (pydub.silent n) ≡ n
  pub overlay_first : (a b : B) → pydub.duration (pydub.overlay a b) ≡ pydub.duration a

abbrev pub IsRaised : {B : Type 0} → Outcome B → Type 0
IsRaised o = (error : Text) × (o ≡ raised error)

module _ {B : Type 0} (pydub : Pydub B) where
  abbrev pub total : List B → ℕ
  total [] = 0
  total (b ∷ bs) = pydub.duration b + total bs

  -- An audio that is as long as the joined pieces, less the crossfades.
  abbrev pub IsJoined : ℕ → B → List B → Outcome B → Type 0
  IsJoined ms combined bs o =
      (c : B) × (o ≡ returned c)
      × (pydub.duration c + ms * length bs ≡ pydub.duration combined + total bs)

module _ {B : Type 0} (pydub : Pydub B) (laws : KeepsDurations pydub) (ms : ℕ) where
  appended-IsJoined :
      (a b : B)
      → ms ≤ pydub.duration a
      → ms ≤ pydub.duration b
      → (c : B) × (appended pydub ms a b ≡ returned c)
        × (pydub.duration c + ms ≡ pydub.duration a + pydub.duration b)
  appended-IsJoined a b ha hb = elim (Bool-cases (ltb 0 ms)) [
    | inl fades ↦ rw fades (laws.append_long a b ms ha hb)
    | inr plain ↦ rw plain (pydub.concat a b, refl, ground (arith, laws.concat_both a b))
  ]

  append_all-IsJoined :
      (a : B) (bs : List B)
      → ms ≤ pydub.duration a
      → All (λ b. ms ≤ pydub.duration b) bs
      → IsJoined pydub ms a bs (append_all pydub ms bs (returned a))
  append_all-IsJoined a [] ha h = (a, refl, omega arith)
  append_all-IsJoined a (b ∷ bs) ha h =
      let (c, e, long) = appended-IsJoined a b ha h.0 in
      let (d, e', whole) = append_all-IsJoined c bs (omega (arith, long, h.0, ha)) h.1 in
      (d, ap (append_all pydub ms bs) e ∙ e', omega (arith, mul-suc ms (length bs), long, whole))

  append_all-IsRaised :
      (bs : List B) (o : Outcome B) → IsRaised o → IsRaised (append_all pydub ms bs o)
  append_all-IsRaised bs o (error, e) = (error, ap (append_all pydub ms bs) e)

  -- A short piece ends the loop, whatever stands before and after it.
  append_all-short :
      (before : List B) (b : B) (after : List B) (o : Outcome B)
      → pydub.duration b < ms
      → IsRaised (append_all pydub ms (before ++ b ∷ after) o)
  append_all-short before b after (raised error) h = (error, refl)
  append_all-short [] b after (returned a) h =
      append_all-IsRaised after (appended pydub ms a b)
        (rw (lt→ltb 0 ms (omega (arith, h))) (laws.append_short a b ms h))
  append_all-short (d ∷ before) b after (returned a) h =
      append_all-short before b after (appended pydub ms a d) h

  -- Chunks that are all at least as long as the crossfade are joined, and each but the first makes
  -- the result shorter than their sum by the crossfade.
  pub reassemble_chunks-IsJoined :
      (processed : List (Processed B)) (b : B) (bs : List B)
      → successful processed ≡ b ∷ bs
      → All (λ a. ms ≤ pydub.duration a) (b ∷ bs)
      → IsJoined pydub ms b bs (reassemble_chunks pydub processed ms)
  unfolding reassemble_chunks
  reassemble_chunks-IsJoined processed b bs e h = rw e (append_all-IsJoined b bs h.0 h.1)

  -- A chunk after the first that is shorter than the crossfade makes the whole job fail.
  pub reassemble_chunks-short :
      (processed : List (Processed B)) (first : B) (before : List B) (b : B) (after : List B)
      → successful processed ≡ first ∷ (before ++ b ∷ after)
      → pydub.duration b < ms
      → IsRaised (reassemble_chunks pydub processed ms)
  unfolding reassemble_chunks
  reassemble_chunks-short processed first before b after e h =
      rw e (append_all-short before b after (returned first) h)

module _ {B : Type 0} (pydub : Pydub B) (laws : KeepsDurations pydub) where
  duration-padded :
      (a b : B)
      → pydub.duration (padded pydub a b)
        ≡ (if ltb (pydub.duration a) (pydub.duration b) then pydub.duration b else pydub.duration a)
  duration-padded a b = elim (Bool-cases (ltb (pydub.duration a) (pydub.duration b))) [
    | inl short ↦
        let gap = pydub.duration b - pydub.duration a in
        rw short (ground (arith, short, laws.concat_both a (pydub.silent gap), laws.silent_for gap))
    | inr long ↦ rw long refl
  ]

  -- The two sides of the mix are of one length, that of the longer, so that none is cut off.
  pub mix_audio-duration :
      (vocals background : B)
      → (pydub.duration (padded pydub background vocals)
          ≡ pydub.duration (padded pydub vocals background))
        × (pydub.duration vocals ≤ pydub.duration (mix_audio pydub vocals background))
        × (pydub.duration background ≤ pydub.duration (mix_audio pydub vocals background))
  unfolding mix_audio
  mix_audio-duration vocals background =
      let one = duration-padded background vocals in
      let other = duration-padded vocals background in
      let both =
        laws.overlay_first (padded pydub background vocals) (padded pydub vocals background) in
      rw (both, one, other) (ground arith, ground arith, ground arith)

module _ {A B : Type 0} (pydub : Pydub B) (laws : KeepsDurations pydub)
    (chunk_dir processed_dir : Text) (minutes sample_rate : ℕ) (audio : List A)
    (convert_voice : Chunk → List A → Outcome B) (died : Chunk → Bool) where
  split-CountsFrom :
      (chunks : List (Chunk × List A))
      → 0 < minutes * 60 * sample_rate
      → split_audio chunk_dir minutes sample_rate audio ≡ some chunks
      → CountsFrom 0 chunks
  split-CountsFrom chunks pos e =
      let (cut, e', split) = split_audio-IsSplit chunk_dir minutes sample_rate audio pos in
      subst (CountsFrom 0) (some-eq (sym e' ∙ e)) split.2

  -- Split an audio into chunks of at least a sample, let the workers finish in any order, and let
  -- those that succeed give at least 100 milliseconds each: the voice that is mixed with the
  -- background, or is the result when there is none, is as long as their results in the order of
  -- the chunks, less 100 milliseconds for each but the first.
  pub process_with_background-IsJoined :
      (chunks : List (Chunk × List A)) (later : List (Option (Processed B))) (b : B) (bs : List B)
      → 0 < minutes * 60 * sample_rate
      → split_audio chunk_dir minutes sample_rate audio ≡ some chunks
      → Completes (map (future_of processed_dir convert_voice died) chunks) later
      → successful (results processed_dir convert_voice died chunks) ≡ b ∷ bs
      → All (λ a. 100 ≤ pydub.duration a) (b ∷ bs)
      → (vocals : B) × (pydub.duration vocals + 100 * length bs ≡ total pydub (b ∷ bs))
        × ((vocals_gain background_gain : B → B) (background : Option B)
            → process_with_background pydub vocals_gain background_gain background later
              ≡ mixed_with pydub vocals_gain background_gain background (returned vocals))
  unfolding process_with_background
  process_with_background-IsJoined chunks later b bs pos e done ok long =
      let ordered =
        process_chunks_parallel-any_order processed_dir convert_voice died chunks later
          (split-CountsFrom chunks pos e) done in
      let (vocals, e', whole) =
        reassemble_chunks-IsJoined pydub laws 100 (process_chunks_parallel later) b bs
          (ap successful ordered ∙ ok) long in
      (
        vocals,
        whole,
        λ vocals_gain background_gain background.
            ap (mixed_with pydub vocals_gain background_gain background) e',
      )
