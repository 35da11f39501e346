-- ===== src/Workers/Sora.antt =====
-- prod/workers/sora_worker.py: `run_sora_job`. A post stands for what `_extract_post_fields` reads
-- from an item of the feed; the temporary directories and the logs are left out, and so are the
-- errors of the database. Ids are compared for equality.
pub mod Laws
use content_fabric.Base.{
  ℕ, ◌+◌, Bool, true, false, not, ◌&&◌, ◌||◌, Option, none, some, List, [], ◌∷◌, leb, ltb,
  if◌then◌else◌,
}
use content_fabric.Text.{Text, text_mem, is_blank, or_blank}
use content_fabric.Queue.{Job, shorts, SoraPayload, enqueue}

pub record Post : Type 0 where
  pub post_id : Option Text
  pub video_url : Option Text
  pub views : ℕ

-- The counts, the used post ids of the database, and the queues.
pub record SoraRun : Type 0 where
  pub new_count : ℕ
  pub queued : ℕ
  pub used : List Text
  pub jobs : List Job

-- The tests before a post is downloaded; `used` are the ids that were read before the loop.
abbrev pub is_wanted : SoraPayload → List Text → Post → Bool
is_wanted payload used post =
    not (is_blank post.post_id)
    && not (is_blank post.video_url)
    && not (text_mem (or_blank post.post_id) used)
    && leb payload.min_views post.views

-- the job for one downloaded post, with the path of its file
abbrev pub shorts_job : SoraPayload → Text → Job
shorts_job payload path = shorts (record {
  shorts_channel_id = payload.sora_channel_id;
  donor_video_url = some path;
  highlights = 1;
})

-- `mark_post_used`: INSERT IGNORE into a table whose primary key is the id
abbrev pub mark_post_used : Text → List Text → List Text
mark_post_used id used = if text_mem id used then used else id ∷ used

abbrev pub after_shorts : Post → SoraRun → Option (List Job) → SoraRun
after_shorts post run none = run
after_shorts post run (some jobs) = record run {
  queued = run.queued + 1;
  used = mark_post_used (or_blank post.post_id) run.used;
  jobs = jobs;
}

-- `download` gives the path of the file, or `none` if the download fails or raises.
abbrev pub after_download : (Job → Bool) → SoraPayload → Post → SoraRun → Option Text → SoraRun
after_download redis payload post run none = run
after_download redis payload post run (some path) =
    after_shorts post run (enqueue redis (shorts_job payload path) run.jobs)

abbrev pub sora_post :
    (Job → Bool) → (Text → Option Text) → SoraPayload → List Text → Post → SoraRun → SoraRun
sora_post redis download payload used post run =
    if not (is_wanted payload used post)
    then run
    else after_download redis payload post (record run { new_count = run.new_count + 1 })
        (download (or_blank post.video_url))

unfoldable pub sora_posts :
    (Job → Bool) → (Text → Option Text) → SoraPayload → List Text → List Post → SoraRun → SoraRun
sora_posts redis download payload used [] run = run
sora_posts redis download payload used (post ∷ posts) run =
    let rest =
      sora_posts redis download payload used posts
        (sora_post redis download payload used post run) in
    if leb payload.posts run.queued then run else rest

-- With the feed, the used ids in the database and the queues.
unfoldable pub run_sora_job :
    (Job → Bool) → (Text → Option Text) → SoraPayload → List Post → List Text → List Job → SoraRun
unfolding sora_posts
run_sora_job redis download payload feed used jobs =
    sora_posts redis download payload used feed
      (record { new_count = 0; queued = 0; used = used; jobs = jobs })
