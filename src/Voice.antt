-- ===== src/Voice.antt =====
-- prod/shared/voice: the audio of a task is cut into chunks, other processes change the voice of
-- each, and the results are joined and mixed with the music behind.
pub mod Parallel
use content_fabric.Base.{ℕ, List, Option}
use content_fabric.Text.{Text}
use content_fabric.Youtube.{Outcome}

-- The part of a chunk's info that places it: times are these samples over the rate.
pub record Chunk : Type 0 where
  pub path : Text
  pub index : ℕ
  pub start_sample : ℕ
  pub end_sample : ℕ
  pub sample_rate : ℕ

-- A chunk that a worker has returned: the audio at `processed_path`, or `none` with status "failed".
pub record Processed (B : Type 0) : Type 0 where
  pub chunk : Chunk
  pub processed_path : Option Text
  pub result : Option B

-- pydub, with lengths in milliseconds; `append` raises when a side is shorter than the crossfade.
pub record Pydub (B : Type 0) : Type 0 where
  pub duration : B → ℕ
  pub append : B → B → ℕ → Outcome B
  pub concat : B → B → B
  pub silent : ℕ → B
  pub overlay : B → B → B
