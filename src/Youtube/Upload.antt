-- ===== src/Youtube/Upload.antt =====
-- prod/shared/youtube/upload.py: `process_upload`. The logs are left out, and so is the file size,
-- which only the progress shows. `mark_task_*` are those of Tasks.Repo; an error of the database
-- itself is not modelled.
pub mod Laws
use content_fabric.Base.{
  ℕ, zero, suc, Bool, true, false, not, ◌&&◌, Option, none, some, List, [], ◌∷◌, ◌++◌, map, ◌==◌,
  if◌then◌else◌, keep, any_of,
}
use content_fabric.Text.{Text, text, is_empty, is_blank, or_blank, contains_text, lower_char}
use content_fabric.Text.Decimal.{decimal, strip}
use content_fabric.Text.Split.{split}
use content_fabric.Channels.{Channel, Console, get_channel_by_id, get_console_by_id}
use content_fabric.Tasks.{Db}
use content_fabric.Tasks.Repo.{mark_task_processing, mark_task_completed, mark_task_failed}
use content_fabric.Youtube.{Outcome, returned, raised, VideoUploadPayload, Credentials, Google}
use content_fabric.Youtube.Client.{build_credentials, ensure_fresh_credentials, upload_video}

pub data Stage : Type 0 where
  preparing authenticating uploading post_processing completed retrying failed : Stage

-- The database, and what is sent elsewhere: progress to Redis, alerts to Telegram, likes and comments
-- to YouTube, and the paths that `os.remove` is called on.
pub record World : Type 0 where
  pub db : Db
  pub progress : List (ℕ × Stage)
  pub alerts : List Text
  pub liked : List Text
  pub comments : List (Text × Text)
  pub removed : List Text

pub data Report : Type 0 where
  uploaded : (video_id : Text) → Report
  failure : (error : Text) → Report

abbrev pub set_progress : ℕ → Stage → World → World
set_progress task_id stage w = record w { progress = (task_id, stage) ∷ w.progress }

abbrev pub max_upload_attempts : ℕ
max_upload_attempts = 2

abbrev pub lower : Text → Text
lower = map lower_char

abbrev pub token_error_patterns : List Text
token_error_patterns =
    text "invalid_grant" ∷ text "Token has been expired or revoked" ∷ text "token expired" ∷ []

unfoldable pub is_token_error : Text → Bool
is_token_error error = any_of (λ p. contains_text (lower p) (lower error)) token_error_patterns

abbrev pub channel_label : ℕ → Option Channel → Text
channel_label channel_id none = text "id=" ++ decimal channel_id
channel_label channel_id (some c) = c.name

abbrev pub upload_alert : ℕ → Text → Text
upload_alert task_id error = text "Upload task " ++ decimal task_id ++ text " failed: " ++ error

abbrev pub token_alert : ℕ → Text → Text
token_alert channel_id name =
    text "Token expired for channel '"
    ++ name
    ++ text "' (id="
    ++ decimal channel_id
    ++ text "). Re-authorization required. Run: python3 run_youtube_reauth.py "
    ++ name

abbrev pub alert_text : ℕ → Text → Option ℕ → List Channel → Text
alert_text task_id error none channels = upload_alert task_id error
alert_text task_id error (some channel_id) channels =
    if is_token_error error && not (channel_id == 0)
    then token_alert channel_id (channel_label channel_id (get_channel_by_id channel_id channels))
    else upload_alert task_id error

-- `_fail`
unfoldable pub fail : ℕ → ℕ → Text → Option ℕ → World → World
fail now task_id error channel_id w =
    let w1 = set_progress task_id failed w in
    let db = (mark_task_failed now task_id (some error) w1.db).1 in
    record w1 { db = db; alerts = alert_text task_id error channel_id db.channels ∷ w1.alerts }

-- The tags of comma-separated keywords.
unfoldable pub tags_of : Option Text → List Text
unfolding split
tags_of keywords =
    if is_blank keywords
    then []
    else keep (λ t. not (is_empty t)) (map strip (split b',' (or_blank keywords)))

-- The paths that are there to remove.
abbrev pub local_files : VideoUploadPayload → List Text
local_files payload =
    keep (λ path. not (is_empty path))
      (payload.source_file_path ∷ or_blank payload.thumbnail_path ∷ [])

abbrev pub comment_on : Text → Option Text → List (Text × Text) → List (Text × Text)
comment_on video_id post_comment comments =
    if not (is_blank post_comment) && not (is_empty video_id)
    then (video_id, or_blank post_comment) ∷ comments
    else comments

-- After the upload; liking, commenting and removing raise nothing.
unfoldable pub succeed : ℕ → VideoUploadPayload → Text → World → World
succeed now payload video_id w =
    let w1 = set_progress payload.task_id post_processing w in
    let w2 = record w1 { db = (mark_task_completed now payload.task_id (some video_id) w1.db).1 } in
    let w3 = record w2 {
      liked = video_id ∷ w2.liked;
      comments = comment_on video_id payload.post_comment w2.comments;
    } in
    let w4 = set_progress payload.task_id completed w3 in
    record w4 { removed = local_files payload ++ w4.removed }

-- `create_service` stores the refreshed tokens even if the upload then fails.
abbrev pub upload_with :
    Google → VideoUploadPayload → World → Outcome Credentials → Outcome (Option Text) × World
upload_with google payload w (raised error) = (raised error, w)
upload_with google payload w (returned creds) = (
  upload_video google creds payload.source_file_path payload.title payload.description
      (tags_of payload.keywords),
  set_progress payload.task_id uploading w,
)

-- the body of the `try`, up to the response
unfoldable pub try_upload :
    Google → ℕ → VideoUploadPayload → Channel → Console → World → Outcome (Option Text) × World
try_upload google now payload channel console w =
    let w1 = set_progress payload.task_id authenticating w in
    let (creds, channels) =
      ensure_fresh_credentials google now payload.channel_id (build_credentials channel console)
        w1.db.channels in
    upload_with google payload (record w1 { db = record w1.db { channels = channels } }) creds

-- `get_channel_by_id(channel_id) or channel`
abbrev pub reloaded : Channel → Option Channel → Channel
reloaded channel none = channel
reloaded channel (some fresh) = fresh

abbrev pub after_attempt :
    ℕ
    → VideoUploadPayload
    → (Text → World → Report × World)
    → Outcome (Option Text) × World
    → Report × World
after_attempt now payload again (returned video_id, w) =
    (uploaded (or_blank video_id), succeed now payload (or_blank video_id) w)
after_attempt now payload again (raised error, w) =
    again error (set_progress payload.task_id retrying w)

-- The loop, with the attempts left. (The reload after the last attempt has no effect.)
unfoldable pub attempts :
    ℕ → Google → ℕ → VideoUploadPayload → Console → Channel → Text → World → Report × World
attempts zero google now payload console channel last_error w =
    (failure last_error, fail now payload.task_id last_error (some payload.channel_id) w)
attempts (suc left) google now payload console channel last_error w =
    after_attempt now payload
      (λ error w'.
        attempts left google now payload console
          (reloaded channel (get_channel_by_id payload.channel_id w'.db.channels)) error w')
      (try_upload google now payload channel console w)

-- `if channel.get("console_id")`
abbrev pub console_of : Option ℕ → List Console → Option Console
console_of none consoles = none
console_of (some k) consoles = if k == 0 then none else get_console_by_id k consoles

abbrev pub with_console :
    Google → ℕ → VideoUploadPayload → Channel → Option Console → World → Report × World
with_console google now payload channel none w = (
  failure (text "console_not_found"),
  fail now payload.task_id
      (text "OAuth console not found for channel " ++ decimal payload.channel_id) none w,
)
with_console google now payload channel (some console) w =
    attempts max_upload_attempts google now payload console channel [] w

abbrev pub with_channel : Google → ℕ → VideoUploadPayload → Option Channel → World → Report × World
with_channel google now payload none w = (
  failure (text "channel_not_found"),
  fail now payload.task_id (text "Channel " ++ decimal payload.channel_id ++ text " not found") none
      w,
)
with_channel google now payload (some channel) w =
    with_console google now payload channel (console_of channel.console_id w.db.consoles) w

abbrev pub start_task : ℕ → ℕ → World → World
start_task now task_id w =
    set_progress task_id preparing (record w { db = (mark_task_processing now task_id w.db).1 })

unfoldable pub process_upload : Google → ℕ → VideoUploadPayload → World → Report × World
process_upload google now payload w =
    let w1 = start_task now payload.task_id w in
    with_channel google now payload (get_channel_by_id payload.channel_id w1.db.channels) w1
