-- ===== src/Voice/Parallel.antt =====
-- prod/shared/voice/parallel.py: `ParallelVoiceProcessor`. An audio that librosa loads is the list
-- of its frames, one sample of each channel. The file of a chunk stands beside its info.
pub mod Slices
pub mod Order
pub mod Joined
use content_fabric.Base.{
  ℕ, zero, suc, ◌+◌, ◌-◌, ◌*◌, ◌/◌, ltb, leb, ◌==◌, Bool, if◌then◌else◌, Option, none, some,
  is_some, ◌≡◌, List, [], ◌∷◌, ◌++◌, length, take, drop, map, keep,
}
use content_fabric.Text.{Text, text}
use content_fabric.Text.Decimal.{decimal}
use content_fabric.Youtube.{Outcome, returned, raised}
use content_fabric.Voice.{Chunk, Processed, Pydub}
use content_fabric.Table.Order.{order_by, ascending}

abbrev pub min_of : ℕ → ℕ → ℕ
min_of a b = if leb a b then a else b

-- `f"{i:04d}"`
abbrev pub zeros : ℕ → Text
zeros zero = []
zeros (suc n) = b'0' ∷ zeros n

unfoldable pub four_digits : ℕ → Text
four_digits i = zeros (4 - length (decimal i)) ++ decimal i

-- `int(np.ceil(total / chunk))`, exact as long as the quotient of floats is
unfoldable pub num_chunks : ℕ → ℕ → ℕ
num_chunks total chunk = (total + (chunk - 1)) / chunk

module _ {A : Type 0} (output_dir : Text) (sample_rate chunk_samples : ℕ) (audio : List A) where
  abbrev pub start_of : ℕ → ℕ
  start_of i = i * chunk_samples

  abbrev pub end_of : ℕ → ℕ
  end_of i = min_of ((i + 1) * chunk_samples) (length audio)

  abbrev pub chunk_at : ℕ → Chunk × List A
  chunk_at i = (
    record {
      path = output_dir ++ text "/chunk_" ++ four_digits i ++ text ".wav";
      index = i;
      start_sample = start_of i;
      end_sample = end_of i;
      sample_rate = sample_rate;
    },
    take (end_of i - start_of i) (drop (start_of i) audio),
  )

  -- the rounds of `for i in range(num_chunks)` from `i` on
  unfoldable pub chunks_from : ℕ → ℕ → List (Chunk × List A)
  chunks_from i zero = []
  chunks_from i (suc n) = chunk_at i ∷ chunks_from (i + 1) n

-- `none` is the ZeroDivisionError of a chunk that has no samples.
unfoldable pub split_audio : {A : Type 0} → Text → ℕ → ℕ → List A → Option (List (Chunk × List A))
split_audio output_dir minutes sample_rate audio =
    let chunk_samples = minutes * 60 * sample_rate in
    if chunk_samples == 0
    then none
    else some (
        chunks_from output_dir sample_rate chunk_samples audio 0
          (num_chunks (length audio) chunk_samples))

module _ {A B : Type 0} (output_dir : Text) (convert_voice : Chunk → List A → Outcome B) where
  abbrev pub outcome_of : Chunk → Outcome B → Processed B
  outcome_of c (returned b) = record {
    chunk = c;
    processed_path =
        some (output_dir ++ text "/processed_chunk_" ++ four_digits c.index ++ text ".wav");
    result = some b;
  }
  outcome_of c (raised error) = record { chunk = c; processed_path = none; result = none }

  -- `_process_chunk_worker`, and the same work in a thread
  abbrev pub process_chunk_worker : Chunk × List A → Processed B
  process_chunk_worker (c, audio) = outcome_of c (convert_voice c audio)

  -- What `future.result()` gives: `none` when it raises, as of a process that died.
  abbrev pub future_of : (Chunk → Bool) → Chunk × List A → Option (Processed B)
  future_of died (c, audio) = if died c then none else some (process_chunk_worker (c, audio))

-- `as_completed`: each next result is that of any future that is still pending.
pub data Completes {F : Type 0} : List F → List F → Type 0 where
  all_done : Completes [] []
  next :
      {pending later : List F} (before : List F) (future : F) (after : List F)
      → pending ≡ before ++ future ∷ after
      → Completes (before ++ after) later
      → Completes pending (future ∷ later)

module _ {B : Type 0} where
  abbrev pub collected : List (Option (Processed B)) → List (Processed B)
  collected [] = []
  collected (none ∷ futures) = collected futures
  collected (some p ∷ futures) = p ∷ collected futures

  abbrev pub index_of : Processed B → ℕ
  index_of p = p.chunk.index

  -- `process_chunks_parallel`, from the futures in the order in which they complete
  unfoldable pub process_chunks_parallel : List (Option (Processed B)) → List (Processed B)
  process_chunks_parallel futures = order_by (ascending index_of) (collected futures)

  -- the audio of the chunks that succeeded
  abbrev pub successful : List (Processed B) → List B
  successful [] = []
  successful (p ∷ processed) = elim p.result [
    | none ↦ successful processed
    | some b ↦ b ∷ successful processed
  ]

  module _ (pydub : Pydub B) where
    abbrev pub appended : ℕ → B → B → Outcome B
    appended crossfade_ms combined b =
        if ltb 0 crossfade_ms
        then pydub.append combined b crossfade_ms
        else returned (pydub.concat combined b)

    -- the loop over the remaining chunks, which an exception leaves
    abbrev pub append_all : ℕ → List B → Outcome B → Outcome B
    append_all crossfade_ms bs (raised error) = raised error
    append_all crossfade_ms [] (returned combined) = returned combined
    append_all crossfade_ms (b ∷ bs) (returned combined) =
        append_all crossfade_ms bs (appended crossfade_ms combined b)

    abbrev pub joined : ℕ → List B → Outcome B
    joined crossfade_ms [] = raised (text "No successful chunks to reassemble")
    joined crossfade_ms (b ∷ bs) = append_all crossfade_ms bs (returned b)

    unfoldable pub reassemble_chunks : List (Processed B) → ℕ → Outcome B
    reassemble_chunks processed crossfade_ms = joined crossfade_ms (successful processed)

    -- with silence up to the length of the other
    abbrev pub padded : B → B → B
    padded b other =
        if ltb (pydub.duration b) (pydub.duration other)
        then pydub.concat b (pydub.silent (pydub.duration other - pydub.duration b))
        else b

    -- `_mix_audio`, after the gains
    unfoldable pub mix_audio : B → B → B
    mix_audio vocals background =
        pydub.overlay (padded background vocals) (padded vocals background)

    abbrev pub mixed_with : (B → B) → (B → B) → Option B → Outcome B → Outcome B
    mixed_with vocals_gain background_gain background (raised error) = raised error
    mixed_with vocals_gain background_gain none (returned vocals) = returned vocals
    mixed_with vocals_gain background_gain (some background) (returned vocals) =
        returned (mix_audio (vocals_gain vocals) (background_gain background))

    -- `process_with_background` after the separation, which gives the background if there is a
    -- separator
    unfoldable pub process_with_background :
        (B → B) → (B → B) → Option B → List (Option (Processed B)) → Outcome B
    process_with_background vocals_gain background_gain background futures =
        mixed_with vocals_gain background_gain background
          (reassemble_chunks (process_chunks_parallel futures) 100)
