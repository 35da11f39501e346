-- ===== src/Youtube.antt =====
-- prod/shared/youtube and prod/shared/queue/types.py: the upload of a video for one task.
pub mod Client
pub mod Upload
use content_fabric.Base.{ℕ, Bool, Option, List}
use content_fabric.Text.{Text}

-- What a call that may raise gives: a value, or the text of the exception.
pub data Outcome {ℓ} (A : Type ℓ) : Type ℓ where
  returned : A → Outcome A
  raised : Text → Outcome A

-- the fields of `VideoUploadPayload` that the upload reads
pub record VideoUploadPayload : Type 0 where
  pub task_id : ℕ
  pub channel_id : ℕ
  pub source_file_path : Text
  pub title : Text
  pub description : Option Text
  pub keywords : Option Text
  pub thumbnail_path : Option Text
  pub post_comment : Option Text
  pub media_type : Text

-- google.oauth2.credentials.Credentials
pub record Credentials : Type 0 where
  pub token : Text
  pub refresh_token : Option Text
  pub client_id : Text
  pub client_secret : Text
  pub expiry : Option ℕ

-- the body of `videos().insert`
pub record VideoBody : Type 0 where
  pub snippet_title : Text
  pub snippet_description : Text
  pub snippet_tags : List Text
  pub category_id : Text
  pub privacy_status : Text

-- What one call of `next_chunk` does. With `chunksize=-1` the whole file is one chunk, so that the
-- call that returns has the response.
pub data Answer : Type 0 where
  with_id : (video_id : Text) → Answer
  without_id : (response : Text) → Answer
  broken : (error : Text) → Answer

-- google-auth and googleapiclient: whether credentials count as expired, their refresh, and the
-- answers to the calls of `next_chunk` on one request.
pub record Google : Type 0 where
  pub expired : ℕ → Option ℕ → Bool
  pub refresh : ℕ → Credentials → Outcome Credentials
  pub answers : Credentials → VideoBody → Text → ℕ → Answer
