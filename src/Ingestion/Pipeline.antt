-- ===== src/Ingestion/Pipeline.antt =====
-- prod/shared/ingestion/dle/pipeline.py and prod/workers/dle_ingestion_worker.py, with
-- `get_task_by_dle_id` of task_repo.py. The trace id is an argument.
pub mod Written
pub mod Laws
pub mod Once
pub mod Runs
use content_fabric.Base.{
  ℕ, ◌+◌, Bool, true, false, Option, none, some, List, [], ◌∷◌, ◌++◌, ◌==◌, if◌then◌else◌, is_some,
}
use content_fabric.Text.{Text, text, is_blank}
use content_fabric.Text.Decimal.{decimal}
use content_fabric.Text.Like.{like}
use content_fabric.Text.Split.{split}
use content_fabric.Json.{Json, null, num, str, obj, Fields, end, field}
use content_fabric.Json.Dumps.{dumps}
use content_fabric.Table.{fetch_one}
use content_fabric.Tasks.{Task, Db}
use content_fabric.Tasks.Insert.{NewTask, create_task}
use content_fabric.Queue.{Job, dle_processing, DleIngestionPayload, enqueue}
use content_fabric.Ingestion.Xfields.{Xfields}
use content_fabric.Ingestion.Client.{DleRow, Post, fetch_recent_posts}

abbrev pub source_mark : Text → Text
source_mark slug = text "\"dle_source\": \"" ++ (slug ++ (b'"' ∷ []))

abbrev pub id_mark : ℕ → Text
id_mark k = text "\"dle_post_id\": " ++ decimal k

abbrev pub dle_pattern : Text → ℕ → Text
dle_pattern slug k = b'%' ∷ (source_mark slug ++ (b'%' ∷ (id_mark k ++ (b'%' ∷ []))))

-- `column LIKE pattern`, which is not true of NULL; the column holds the text of its JSON value
abbrev pub like_column : (ℕ → ℕ → Bool) → Text → Option Json → Bool
like_column same pattern none = false
like_column same pattern (some x) = like same pattern (dumps x)

-- The collation of the table is the first argument.
unfoldable pub get_task_by_dle_id : (ℕ → ℕ → Bool) → Text → ℕ → Db → Option Task
unfolding like dumps decimal
get_task_by_dle_id same slug k db =
    fetch_one (λ t. like_column same (dle_pattern slug k) t.legacy_add_info) db.tasks

-- the parts before the last joined by hyphens, then a dot and the last
abbrev pub join_host : Text → List Text → Text
join_host part [] = part
join_host part (last ∷ []) = part ++ (b'.' ∷ last)
join_host part (next ∷ after ∷ parts) = part ++ (b'-' ∷ join_host next (after ∷ parts))

abbrev pub host_of : List Text → Text
host_of [] = []
host_of (part ∷ parts) = join_host part parts

unfoldable pub slug_to_host : Text → Text
unfolding split
slug_to_host slug = host_of (split b'_' slug)

unfoldable pub post_url : Text → Post → Text
unfolding slug_to_host decimal
post_url slug post =
    text "https://"
    ++ slug_to_host slug
    ++ text "/"
    ++ decimal post.id
    ++ text "-"
    ++ post.alt_name
    ++ text ".html"

abbrev pub json_fields : Xfields → Fields
json_fields [] = end
json_fields ((k, v) ∷ d) = field k (str v) (json_fields d)

abbrev pub json_number : Option ℕ → Json
json_number none = null
json_number (some n) = num n

abbrev pub legacy_info : Text → Text → Post → Json
legacy_info trace_id slug post = obj (
    field (text "dle_source") (str slug) (
      field (text "dle_post_id") (num post.id) (
        field (text "dle_post_url") (str (post_url slug post)) (
          field (text "normalized") (obj post.normalized) (
            field (text "xfields_parsed") (obj (json_fields post.xfields_parsed)) (
              field (text "book_id") (json_number post.book_id)
                (field (text "trace_id") (str trace_id) end)))))))

-- The database and the queues.
pub record IngestSite : Type 0 where
  pub db : Db
  pub queue : List Job

-- What is fixed in a run: the collation, which jobs Redis takes, the uuids, the time and the payload.
pub record Ingest : Type 0 where
  pub same : ℕ → ℕ → Bool
  pub redis : Job → Bool
  pub uuid : ℕ → Text
  pub now : ℕ
  pub trace_id : Text
  pub source_slug : Text
  pub channel_id : ℕ
  pub media_type : Text

module _ (env : Ingest) where
  abbrev pub dle_task : Post → NewTask
  dle_task post = record {
    channel_id = env.channel_id;
    source_file_path = [];
    title = post.title;
    scheduled_at = env.now + 300;
    media_type = env.media_type;
    thumbnail_path = none;
    description = none;
    keywords = none;
    post_comment = none;
    legacy_add_info = some (legacy_info env.trace_id env.source_slug post);
    created_by = none;
  }

  -- A job that Redis does not take is logged.
  abbrev pub or_same : List Job → Option (List Job) → List Job
  or_same queue none = queue
  or_same queue (some queue') = queue'

  abbrev pub with_job : ℕ → List Job → List Job
  with_job task_id queue =
      or_same queue (enqueue env.redis (dle_processing (record { dle_task_id = task_id })) queue)

  -- The count of tasks and the site after `_create_cff_task`; its ValueError is logged.
  abbrev pub after_create : ℕ → IngestSite → Option (ℕ × Db) → ℕ × IngestSite
  after_create count site none = (count, site)
  after_create count site (some (task_id, db)) = (
    if task_id == 0 then count else count + 1,
    record { db = db; queue = with_job task_id site.queue },
  )

  abbrev pub create_cff_task : Post → Db → Option (ℕ × Db)
  create_cff_task post db = create_task (env.uuid db.next_id) env.now (dle_task post) none db

  unfoldable pub is_already_processed : ℕ → Db → Bool
  is_already_processed k db = is_some (get_task_by_dle_id env.same env.source_slug k db)

  unfoldable pub ingest_post : Post → ℕ × IngestSite → ℕ × IngestSite
  ingest_post post (count, site) =
      if is_already_processed post.id site.db
      then (count, site)
      else after_create count site (create_cff_task post site.db)

  unfoldable pub ingest_posts : List Post → ℕ × IngestSite → ℕ × IngestSite
  ingest_posts [] state = state
  ingest_posts (post ∷ posts) state = ingest_posts posts (ingest_post post state)

  -- `DleIngestionPipeline.run`
  unfoldable pub run : ℕ → Option (List DleRow) → IngestSite → ℕ × IngestSite
  run limit rows site = ingest_posts (fetch_recent_posts limit 0 rows) (0, site)

pub data IngestReport : Type 0 where
  created_tasks : ℕ → IngestReport
  ingestion_failed : Text → IngestReport

abbrev pub ran : ℕ × IngestSite → IngestReport × IngestSite
ran (count, site) = (created_tasks count, site)

-- `run_ingestion_job`, with the DSN of the source if the settings have one, and its database
unfoldable pub run_ingestion_job :
    Ingest → ℕ → Option Text → Option (List DleRow) → IngestSite → IngestReport × IngestSite
run_ingestion_job env limit dsn rows site =
    if is_blank dsn
    then (ingestion_failed (text "No DSN found for DLE source: " ++ env.source_slug), site)
    else ran (run env limit rows site)
