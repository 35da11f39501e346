-- ===== src/Tests/Voice.antt =====
-- Runs of the parallel voice processor, with audios that are their durations.
use content_fabric.Base.{
  ℕ, ◌+◌, ◌-◌, ◌*◌, ◌≤◌, ◌<◌, leb, Bool, false, Option, some, zero, suc, ◌≡◌, refl, ◌&&◌,
  if◌then◌else◌, List, [], ◌∷◌, length, arith,
}
use content_fabric.Text.{Text, text}
use content_fabric.Youtube.{Outcome, returned, raised}
use content_fabric.Voice.{Chunk, Processed, Pydub}
use content_fabric.Voice.Parallel.{
  Completes, all_done, next, future_of, split_audio, chunks_from, num_chunks, chunk_at,
  process_chunks_parallel, outcome_of, process_chunk_worker, reassemble_chunks,
  process_with_background, mixed_with,
}
use content_fabric.Voice.Parallel.Slices.{IsSplit, split_audio-IsSplit}
use content_fabric.Voice.Parallel.Order.{results, process_chunks_parallel-any_order}
use content_fabric.Voice.Parallel.Joined.{
  KeepsDurations, IsRaised, reassemble_chunks-short, process_with_background-IsJoined,
}

abbrev appended_lengths : ℕ → ℕ → ℕ → Outcome ℕ
appended_lengths a b ms =
    if leb ms a && leb ms b then returned (a + b - ms) else raised (text "Crossfade is longer")

abbrev lengths : Pydub ℕ
lengths = record {
  duration = λ a. a;
  append = appended_lengths;
  concat = λ a b. a + b;
  silent = λ n. n;
  overlay = λ a b. a;
}

long_lengths :
    (a b ms : ℕ)
    → ms ≤ a
    → ms ≤ b
    → (c : ℕ) × (appended_lengths a b ms ≡ returned c) × (c + ms ≡ a + b)
long_lengths a b ms ha hb = (a + b - ms, ground arith, ground arith)

short_lengths : (a b ms : ℕ) → b < ms → (error : Text) × (appended_lengths a b ms ≡ raised error)
short_lengths a b ms h = (text "Crossfade is longer", ground arith)

lengths-KeepsDurations : KeepsDurations lengths
lengths-KeepsDurations = record {
  append_long = long_lengths;
  append_short = short_lengths;
  concat_both = λ a b. refl;
  silent_for = λ n. refl;
  overlay_first = λ a b. refl;
}

abbrev repeated : ℕ → List ℕ
repeated zero = []
repeated (suc n) = 7 ∷ repeated n

-- a minute and a frame, at one frame a second
abbrev an_audio : List ℕ
an_audio = repeated 61

split_audio-IsSplit_example :
    (chunks : List (Chunk × List ℕ)) × (split_audio (text "/tmp") 1 1 an_audio ≡ some chunks)
    × IsSplit 60 an_audio chunks
split_audio-IsSplit_example = split_audio-IsSplit (text "/tmp") 1 1 an_audio (omega arith)

abbrev two_chunks : List (Chunk × List ℕ)
two_chunks = chunk_at (text "/tmp") 1 60 an_audio 0 ∷ chunk_at (text "/tmp") 1 60 an_audio 1 ∷ []

split_in_two : split_audio (text "/tmp") 1 1 an_audio ≡ some two_chunks
unfolding split_audio chunks_from num_chunks
split_in_two = refl

abbrev convert : Chunk → List ℕ → Outcome ℕ
convert c audio = returned (length audio * 1000)

abbrev survives : Chunk → Bool
survives c = false

abbrev first_future : Option (Processed ℕ)
first_future = future_of (text "/out") convert survives (chunk_at (text "/tmp") 1 60 an_audio 0)

abbrev second_future : Option (Processed ℕ)
second_future = future_of (text "/out") convert survives (chunk_at (text "/tmp") 1 60 an_audio 1)

-- the second chunk is done before the first
abbrev second_first :
    Completes (first_future ∷ second_future ∷ []) (second_future ∷ first_future ∷ [])
second_first =
    next (first_future ∷ []) second_future [] refl (next [] first_future [] refl all_done)

process_chunks_parallel-any_order_example :
    process_chunks_parallel (second_future ∷ first_future ∷ [])
    ≡ results (text "/out") convert survives two_chunks
process_chunks_parallel-any_order_example =
    process_chunks_parallel-any_order (text "/out") convert survives two_chunks
      (second_future ∷ first_future ∷ []) (refl, (refl, tt)) second_first

process_with_background-IsJoined_example :
    (vocals : ℕ) × (vocals + 100 * 1 ≡ 61000)
    × ((vocals_gain background_gain : ℕ → ℕ) (background : Option ℕ)
        → process_with_background lengths vocals_gain background_gain background
            (second_future ∷ first_future ∷ [])
          ≡ mixed_with lengths vocals_gain background_gain background (returned vocals))
process_with_background-IsJoined_example =
    process_with_background-IsJoined lengths lengths-KeepsDurations (text "/tmp") (text "/out") 1 1
      an_audio convert survives two_chunks (second_future ∷ first_future ∷ []) 60000 (1000 ∷ [])
      (omega arith) split_in_two second_first refl (omega arith, (omega arith, tt))

-- a second chunk of 40 milliseconds
abbrev a_short_chunk : List (Processed ℕ)
a_short_chunk =
    process_chunk_worker (text "/out") convert (chunk_at (text "/tmp") 1 60 an_audio 0)
    ∷ outcome_of {A = ℕ} (text "/out") convert (chunk_at (text "/tmp") 1 60 an_audio 1).0
        (returned 40)
    ∷ []

reassemble_chunks-short_example : IsRaised (reassemble_chunks lengths a_short_chunk 100)
reassemble_chunks-short_example =
    reassemble_chunks-short lengths lengths-KeepsDurations 100 a_short_chunk 60000 [] 40 [] refl
      (omega arith)
