-- ===== src/Workers/Shorts.antt =====
-- prod/workers/shorts_worker.py, and the reading of an answer in prod/shared/shorts/highlight.py: a
-- video is cut into shorts, each a task of its own. Whisper, GPT and ffmpeg are arguments.
pub mod Rounds
pub mod Laws
use content_fabric.Base.{
  ℕ, zero, suc, ◌+◌, ◌*◌, ◌==◌, Bool, true, false, Option, none, some, or_else, List, [], ◌∷◌, ◌++◌,
  take, if◌then◌else◌,
}
use content_fabric.Text.{Text, text, is_empty, or_blank}
use content_fabric.Text.Decimal.{decimal, strip}
use content_fabric.Json.{
  Json, Items, Fields, nil, cons, end, field, null, bool, num, str, arr, obj, get_field,
}
use content_fabric.Tasks.{Db}
use content_fabric.Tasks.Insert.{NewTask, create_task}
use content_fabric.Queue.{ShortsPayload}
use content_fabric.Youtube.{Outcome, returned, raised}
use content_fabric.Workers.{Site}

abbrev pub items_of : Items → List Json
items_of nil = []
items_of (cons x xs) = x ∷ items_of xs

abbrev pub list_of : Option Json → Option (List Json)
list_of (some (arr xs)) = some (items_of xs)
list_of _ = none

-- The first of the keys whose value is a list.
abbrev pub list_under : List Text → Fields → Option (List Json)
list_under [] fields = none
list_under (key ∷ keys) fields = elim (list_of (get_field key fields)) [
  | none ↦ list_under keys fields
  | some xs ↦ some xs
]

-- `vals[0]` if it is a list, else the object itself
abbrev pub first_list : Fields → List Json
first_list end = obj end ∷ []
first_list (field key value fields) =
    or_else (list_of (some value)) (obj (field key value fields) ∷ [])

abbrev pub highlight_keys : List Text
highlight_keys = text "highlights" ∷ text "segments" ∷ text "items" ∷ text "clips" ∷ []

abbrev pub read_answer : Json → List Json
read_answer (arr xs) = items_of xs
read_answer (obj fields) = or_else (list_under highlight_keys fields) (first_list fields)
read_answer _ = []

-- `find_highlights` after the call of GPT, which gives the decoded content or raises.
unfoldable pub find_highlights : Bool → Outcome Json → ℕ → List Json
find_highlights has_key (raised error) limit = []
find_highlights has_key (returned answer) limit =
    if has_key then take limit (read_answer answer) else []

-- What the loop reads of a highlight; `none` is a key that is missing, a KeyError for all but the
-- reason, and `some none` a reason that is null.
pub record Highlight : Type 0 where
  pub start : Option ℕ
  pub stop : Option ℕ
  pub title : Option Text
  pub reason : Option (Option Text)

-- What is fixed in a job. Each call may raise, and depends on the index of the highlight.
pub record ShortsTools : Type 0 where
  pub download_video : Outcome Bool
  pub transcribe : Outcome Bool
  pub cut_segment : ℕ → ℕ → ℕ → Outcome Bool
  pub pick_thumbnail : ℕ → Outcome (Option Text)
  pub uuid : ℕ → Text
  pub now : ℕ → ℕ
  pub tmp_dir : Text

abbrev pub key_error : Text → Text
key_error key = text "'" ++ key ++ text "'"

module _ (tools : ShortsTools) (channel_id : ℕ) (donor_url : Text) where
  abbrev pub short_path : ℕ → Text
  short_path i = tools.tmp_dir ++ text "/short_" ++ decimal i ++ text ".mp4"

  abbrev pub short_task : ℕ → Text → Option (Option Text) → Option Text → NewTask
  short_task i title reason thumbnail = record {
    channel_id = channel_id;
    source_file_path = short_path i;
    title = title;
    scheduled_at = tools.now i + 7200 * i;
    media_type = text "shorts";
    thumbnail_path = thumbnail;
    description = or_else reason (some (text "Generated short"));
    keywords = none;
    post_comment = none;
    legacy_add_info = some (
        obj
          (field (text "donor_url") (str donor_url) (field (text "highlight_index") (num i) end)));
    created_by = none;
  }

  abbrev pub count_created : ℕ → Db → Option (ℕ × Db) → Outcome ℕ × Db
  count_created count db none =
      (raised (text "No project_id provided and no default project found"), db)
  count_created count db (some (task_id, db')) =
      (returned (if task_id == 0 then count else count + 1), db')

  abbrev pub with_thumbnail : ℕ → Highlight → ℕ → Db → Outcome (Option Text) → Outcome ℕ × Db
  with_thumbnail i h count db (raised error) = (raised error, db)
  with_thumbnail i h count db (returned thumbnail) = elim h.title [
    | none ↦ (raised (key_error (text "title")), db)
    | some title ↦ count_created count db (
        create_task (tools.uuid db.next_id) (tools.now i) (short_task i title h.reason thumbnail)
          none db)
  ]

  abbrev pub after_cut : ℕ → Highlight → ℕ → Db → Outcome Bool → Outcome ℕ × Db
  after_cut i h count db (raised error) = (raised error, db)
  after_cut i h count db (returned false) = (returned count, db)
  after_cut i h count db (returned true) = with_thumbnail i h count db (tools.pick_thumbnail i)

  -- one round of the loop
  abbrev pub cut_short : ℕ → Highlight → ℕ → Db → Outcome ℕ × Db
  cut_short i h count db = elim h.start [
    | none ↦ (raised (key_error (text "start")), db)
    | some start ↦ elim h.stop [
      | none ↦ (raised (key_error (text "end")), db)
      | some stop ↦ after_cut i h count db (tools.cut_segment i start stop)
    ]
  ]

  -- The loop from the highlight `i` on; an exception leaves it, with the tasks that are there.
  unfoldable pub cut_shorts : ℕ → List Highlight → Outcome ℕ × Db → Outcome ℕ × Db
  cut_shorts i hs (raised error, db) = (raised error, db)
  cut_shorts i [] (returned count, db) = (returned count, db)
  cut_shorts i (h ∷ hs) (returned count, db) = cut_shorts (i + 1) hs (cut_short i h count db)

pub data ShortsReport : Type 0 where
  created_tasks : ℕ → ShortsReport
  failed skipped : Text → ShortsReport

abbrev pub report_of : ℕ → Outcome ℕ × Db → Site → ShortsReport × Site
report_of channel_id (returned count, db) site = (created_tasks count, record site { db = db })
report_of channel_id (raised error, db) site = (
  failed error,
  record {
    db = db;
    alerts =
        (text "Shorts job failed for channel " ++ decimal channel_id ++ text ": " ++ error)
        ∷ site.alerts;
  },
)

abbrev pub when_true : Outcome Bool → Text → Outcome ℕ × Db → Db → Outcome ℕ × Db
when_true (raised error) message next db = (raised error, db)
when_true (returned false) message next db = (raised message, db)
when_true (returned true) message next db = next

abbrev pub missing_donor : ℕ → Text
missing_donor channel_id =
    text "donor_video_url is missing for channel "
    ++ decimal channel_id
    ++ text "; configure a default donor URL on the channel or pass one in the payload"

-- With the highlights that are found.
unfoldable pub run_shorts_job :
    ShortsTools → ShortsPayload → List Highlight → Site → ShortsReport × Site
run_shorts_job tools payload highlights site =
    if is_empty (strip (or_blank payload.donor_video_url))
    then (
      skipped (missing_donor payload.shorts_channel_id),
      record site {
        alerts =
            (text "Shorts job for channel "
              ++ decimal payload.shorts_channel_id
              ++ text " skipped: "
              ++ missing_donor payload.shorts_channel_id)
            ∷ site.alerts;
      },
    )
    else report_of payload.shorts_channel_id
        (when_true tools.download_video (text "Failed to download donor video")
          (when_true tools.transcribe (text "Failed to transcribe video")
            (cut_shorts tools payload.shorts_channel_id (or_blank payload.donor_video_url) 0
              highlights (returned 0, site.db))
            site.db)
          site.db)
        site
