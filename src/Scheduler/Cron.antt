-- ===== src/Scheduler/Cron.antt =====
-- prod/scheduler/jobs.py: the timetable of the ingestion jobs, `run_periodic_yii_jobs`.
pub mod Laws
use content_fabric.Base.{
  ℕ, ◌+◌, Bool, true, false, not, ◌&&◌, ◌||◌, Option, none, some, List, [], ◌∷◌, ◌++◌, map, ◌==◌,
  if◌then◌else◌,
}
use content_fabric.Text.{Text, text, text_eq}
use content_fabric.Queue.{
  Job, dle_ingestion, shorts, sora, DleIngestionPayload, ShortsPayload, SoraPayload, enqueue,
}

abbrev ingestion : Text → ℕ → ℕ → Text → Job
ingestion slug channel limit media =
    dle_ingestion
      (record { source_slug = slug; channel_id = channel; limit = limit; media_type = media })

abbrev pub dle_nightly_ingestions : List Job
dle_nightly_ingestions =
    ingestion (text "knigi_audio_biz") 6 3 (text "video")
    ∷ ingestion (text "audiokniga_one_com") 5 1 (text "video")
    ∷ ingestion (text "club_books_ru") 21 1 (text "video")
    ∷ ingestion (text "books_online_info") 23 1 (text "video")
    ∷ ingestion (text "bazaknig_net") 26 2 (text "video")
    ∷ map (λ channel. ingestion (text "bazaknig_net") channel 3 (text "video"))
        (27 ∷ 29 ∷ 30 ∷ 32 ∷ 47 ∷ 48 ∷ [])

abbrev pub dle_shorts_ingestions : List Job
dle_shorts_ingestions =
    ingestion (text "knigi_audio_biz") 6 1 (text "shorts")
    ∷ ingestion (text "audiokniga_one_com") 5 1 (text "shorts")
    ∷ ingestion (text "club_books_ru") 21 1 (text "shorts")
    ∷ ingestion (text "books_online_info") 23 1 (text "shorts")
    ∷ map (λ channel. ingestion (text "bazaknig_net") channel 1 (text "shorts"))
        (26 ∷ 27 ∷ 29 ∷ 30 ∷ 32 ∷ 33 ∷ 47 ∷ 48 ∷ [])

abbrev pub dle_shorts_slushat : List Job
dle_shorts_slushat = ingestion (text "slushat_knigi_com") 25 1 (text "shorts") ∷ []

abbrev pub shorts_from_video_channels : List Job
shorts_from_video_channels =
    shorts (record { shorts_channel_id = 28; donor_video_url = none; highlights = 5 }) ∷ []

abbrev pub sora_daily_channels : List Job
sora_daily_channels =
    sora (record {
      sora_channel_id = 19;
      posts = 3;
      sora_media_type = text "shorts";
      min_views = 1000;
    })
    ∷ []

abbrev pub count_enqueued : ℕ → List Job → Option (List Job) → ℕ × List Job
count_enqueued count queue none = (count, queue)
count_enqueued count queue (some queue') = (count + 1, queue')

-- The loop that the five `enqueue_*` share: an exception loses one job and no other.
unfoldable pub enqueue_each : (Job → Bool) → List Job → ℕ × List Job → ℕ × List Job
enqueue_each redis [] s = s
enqueue_each redis (job ∷ jobs) (count, queue) =
    enqueue_each redis jobs (count_enqueued count queue (enqueue redis job queue))

-- the callables of `_YII_CRON`
pub data Callable : Type 0 where
  enqueue_dle_nightly enqueue_dle_shorts enqueue_slushat_shorts : Callable
  enqueue_shorts_from_video enqueue_sora_daily : Callable

abbrev pub jobs_of : Callable → List Job
jobs_of enqueue_dle_nightly = dle_nightly_ingestions
jobs_of enqueue_dle_shorts = dle_shorts_ingestions
jobs_of enqueue_slushat_shorts = dle_shorts_slushat
jobs_of enqueue_shorts_from_video = shorts_from_video_channels
jobs_of enqueue_sora_daily = sora_daily_channels

pub record CronEntry : Type 0 where
  pub job_name : Text
  pub hour : ℕ
  pub minute : ℕ
  pub run : Callable

abbrev entry : Text → ℕ → ℕ → Callable → CronEntry
entry name hh mm run = record { job_name = name; hour = hh; minute = mm; run = run }

abbrev pub yii_cron : List CronEntry
yii_cron =
    entry (text "dle_nightly") 2 0 enqueue_dle_nightly
    ∷ entry (text "dle_shorts_1") 14 15 enqueue_dle_shorts
    ∷ entry (text "dle_shorts_2") 16 15 enqueue_dle_shorts
    ∷ entry (text "dle_shorts_3") 21 15 enqueue_dle_shorts
    ∷ entry (text "slushat_shorts_1") 17 15 enqueue_slushat_shorts
    ∷ entry (text "slushat_shorts_2") 20 15 enqueue_slushat_shorts
    ∷ entry (text "shorts_from_video") 13 20 enqueue_shorts_from_video
    ∷ entry (text "sora_daily") 11 0 enqueue_sora_daily
    ∷ []

-- `now`, to the minute, which is what the key `%Y-%m-%d %H:%M` says
pub record Minute : Type 0 where
  pub date : ℕ
  pub hh : ℕ
  pub mm : ℕ

abbrev pub same_minute : Minute → Minute → Bool
same_minute a b = (a.date == b.date) && (a.hh == b.hh) && (a.mm == b.mm)

-- `_yii_last_run`, the latest entry first
pub record CronState : Type 0 where
  pub queue : List Job
  pub last_run : List (Text × Minute)

unfoldable pub last_run_of : Text → List (Text × Minute) → Option Minute
last_run_of name [] = none
last_run_of name ((other, m) ∷ runs) = if text_eq other name then some m else last_run_of name runs

abbrev pub ran_in : Minute → Option Minute → Bool
ran_in now none = false
ran_in now (some m) = same_minute m now

-- Whether an entry is passed over.
abbrev pub is_skipped : Minute → List (Text × Minute) → CronEntry → Bool
is_skipped now runs e =
    not (now.hh == e.hour) || not (now.mm == e.minute) || ran_in now (last_run_of e.job_name runs)

abbrev pub fire : (Job → Bool) → Minute → CronEntry → CronState → CronState
fire redis now e st = record {
  queue = (enqueue_each redis (jobs_of e.run) (0, st.queue)).1;
  last_run = (e.job_name, now) ∷ st.last_run;
}

abbrev pub run_entry : (Job → Bool) → Minute → CronEntry → ℕ × CronState → ℕ × CronState
run_entry redis now e (fired, st) =
    if is_skipped now st.last_run e then (fired, st) else (fired + 1, fire redis now e st)

unfoldable pub run_entries : (Job → Bool) → Minute → List CronEntry → ℕ × CronState → ℕ × CronState
run_entries redis now [] s = s
run_entries redis now (e ∷ es) s = run_entries redis now es (run_entry redis now e s)

unfoldable pub run_periodic_yii_jobs : (Job → Bool) → Minute → CronState → ℕ × CronState
unfolding run_entries
run_periodic_yii_jobs redis now st = run_entries redis now yii_cron (0, st)
