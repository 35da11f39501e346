-- ===== src/Api/Schemas.antt =====
-- prod/app/schemas/task.py: what pydantic accepts as the body of a request; anything else is answered
-- with 422 before the handler runs.
use content_fabric.Base.{ℕ, Bool, true, not, ◌&&◌, ◌||◌, Option, none, some, leb, ltb, length}
use content_fabric.Text.{Text, text, contains_text, starts_with}
use content_fabric.Tasks.{TaskStatus}
use content_fabric.Tasks.Repo.{NewTask}

-- `validate_file_path`: no "..", not absolute, at most 1000 characters
unfoldable pub validate_file_path : Text → Bool
unfolding contains_text starts_with
validate_file_path path =
    not (contains_text (text "..") path)
    && not (starts_with (text "/") path || starts_with (text "\\") path)
    && leb (length path) 1000

abbrev pub fits : ℕ → Option Text → Bool
fits n none = true
fits n (some s) = leb (length s) n

abbrev pub valid_path : Option Text → Bool
valid_path none = true
valid_path (some path) = validate_file_path path

-- `TaskCreate`
unfoldable pub accepts_task : NewTask → Bool
accepts_task t =
    ltb 0 (length t.source_file_path)
    && leb (length t.source_file_path) 1000
    && ltb 0 (length t.title)
    && leb (length t.title) 500
    && fits 1000 t.thumbnail_path
    && fits 5000 t.description
    && fits 2000 t.keywords
    && fits 2000 t.post_comment
    && validate_file_path t.source_file_path
    && valid_path t.thumbnail_path

-- `TaskUpdate`: the status is one of 0 to 4.
pub record TaskUpdate : Type 0 where
  pub status : Option TaskStatus
  pub scheduled_at : Option ℕ
  pub error_message : Option Text
