-- ===== src/Youtube/Upload/Laws.antt =====
-- How an upload ends.
use content_fabric.Base.{ℕ, zero, suc, ◌≡◌, ◌≢◌, refl, ap, ◌∙◌, Option, none, some, [], ◌∷◌, ◌++◌}
use mathlib.Core.Option
use content_fabric.Text.{Text, or_blank, text}
use content_fabric.Text.Decimal.{decimal}
use content_fabric.Channels.{Channel, Console, get_channel_by_id}
use content_fabric.Tasks.{Task, failed, processing}
use content_fabric.Tasks.Repo.{get_task, set_completed, set_status_row, mark_task_failed}
use content_fabric.Tasks.Repo.Marks.{
  mark_task_processing-get, mark_task_processing-leaves, mark_task_completed-leaves,
  mark_task_failed-leaves, mark_task_completed-get, mark_task_failed-get,
}
use content_fabric.Youtube.{Outcome, returned, raised, VideoUploadPayload, Credentials, Google}
use content_fabric.Youtube.Upload.{
  World, Report, uploaded, failure, local_files, alert_text, fail, succeed, try_upload, upload_with,
  after_attempt, attempts, reloaded, with_console, with_channel, console_of, start_task,
  process_upload, max_upload_attempts,
}

-- Completed with the video's id and its local files removed, or failed with nothing removed or liked.
abbrev pub Ends : ℕ → VideoUploadPayload → Task → World → Report × World → Type 0
Ends now payload t w (uploaded video_id, w') =
    (get_task w'.db payload.task_id ≡ some (set_completed now (some video_id) t))
    × (w'.removed ≡ local_files payload ++ w.removed)
    × (w'.liked ≡ video_id ∷ w.liked)
    × (w'.alerts ≡ w.alerts)
    × ((j : ℕ) → j ≢ payload.task_id → get_task w'.db j ≡ get_task w.db j)
Ends now payload t w (failure error, w') =
    ((message : Text) × (get_task w'.db payload.task_id
        ≡ some (set_status_row now failed (some message) none t)))
    × (w'.removed ≡ w.removed)
    × (w'.liked ≡ w.liked)
    × ((alert : Text) × (w'.alerts ≡ alert ∷ w.alerts))
    × ((j : ℕ) → j ≢ payload.task_id → get_task w'.db j ≡ get_task w.db j)

module _ (google : Google) (now : ℕ) (payload : VideoUploadPayload) (t : Task) where
  -- What stays the same while attempts are made.
  record Same (w w' : World) : Type 0 where
    here : get_task w'.db payload.task_id ≡ some t
    removed : w'.removed ≡ w.removed
    liked : w'.liked ≡ w.liked
    alerts : w'.alerts ≡ w.alerts
    others : (j : ℕ) → j ≢ payload.task_id → get_task w'.db j ≡ get_task w.db j

  fail-Ends :
      (w w' : World) (error message : Text) (channel_id : Option ℕ)
      → Same w w'
      → Ends now payload t w (failure error, fail now payload.task_id message channel_id w')
  unfolding fail
  fail-Ends w w' error message channel_id same =
      let alert : Text =
        alert_text payload.task_id message channel_id
          (mark_task_failed now payload.task_id (some message) w'.db).1.channels in
      (
        (
          message,
          mark_task_failed-get now payload.task_id (some message) w'.db
              ∙ ap (Option.map (set_status_row now failed (some message) none)) same.here,
        ),
        same.removed,
        same.liked,
        (alert, ap (λ l. alert ∷ l) same.alerts),
        λ j ne.
            mark_task_failed-leaves j now payload.task_id (some message) w'.db ne
            ∙ same.others j ne,
      )

  succeed-Ends :
      (w w' : World) (video_id : Text)
      → Same w w'
      → Ends now payload t w (uploaded video_id, succeed now payload video_id w')
  unfolding succeed
  succeed-Ends w w' video_id same = (
    mark_task_completed-get now payload.task_id (some video_id) w'.db
        ∙ ap (Option.map (set_completed now (some video_id))) same.here,
    ap (λ l. local_files payload ++ l) same.removed,
    ap (λ l. video_id ∷ l) same.liked,
    same.alerts,
    λ j ne.
        mark_task_completed-leaves j now payload.task_id (some video_id) w'.db ne
        ∙ same.others j ne,
  )

  upload_with-Same :
      (w w' : World) (creds : Outcome Credentials)
      → Same w w'
      → Same w (upload_with google payload w' creds).1
  upload_with-Same w w' (raised error) same = same
  upload_with-Same w w' (returned creds) same = record {
    here = same.here;
    removed = same.removed;
    liked = same.liked;
    alerts = same.alerts;
    others = same.others;
  }

  try_upload-Same :
      (w w' : World) (channel : Channel) (console : Console)
      → Same w w'
      → Same w (try_upload google now payload channel console w').1
  unfolding try_upload
  try_upload-Same w w' channel console same = upload_with-Same w _ _ (record {
    here = same.here;
    removed = same.removed;
    liked = same.liked;
    alerts = same.alerts;
    others = same.others;
  })

  after_attempt-Ends :
      (w : World) (again : Text → World → Report × World)
      → ((error : Text) (w' : World) → Same w w' → Ends now payload t w (again error w'))
      → (r : Outcome (Option Text) × World) → Same w r.1
      → Ends now payload t w (after_attempt now payload again r)
  after_attempt-Ends w again ends (returned video_id, w') same =
      succeed-Ends w w' (or_blank video_id) same
  after_attempt-Ends w again ends (raised error, w') same = ends error _ (record {
    here = same.here;
    removed = same.removed;
    liked = same.liked;
    alerts = same.alerts;
    others = same.others;
  })

  attempts-Ends :
      (left : ℕ) (console : Console) (channel : Channel) (last_error : Text) (w w' : World)
      → Same w w'
      → Ends now payload t w (attempts left google now payload console channel last_error w')
  unfolding attempts
  attempts-Ends zero console channel last_error w w' same =
      fail-Ends w w' last_error last_error (some payload.channel_id) same
  attempts-Ends (suc left) console channel last_error w w' same =
      after_attempt-Ends w _
        (λ error w''.
          attempts-Ends left console
            (reloaded channel (get_channel_by_id payload.channel_id w''.db.channels)) error w w'')
        (try_upload google now payload channel console w')
        (try_upload-Same w w' channel console same)

  with_console-Ends :
      (w w' : World) (channel : Channel) (console : Option Console)
      → Same w w'
      → Ends now payload t w (with_console google now payload channel console w')
  with_console-Ends w w' channel none same =
      fail-Ends w w' (text "console_not_found")
        (text "OAuth console not found for channel " ++ decimal payload.channel_id) none same
  with_console-Ends w w' channel (some console) same =
      attempts-Ends max_upload_attempts console channel [] w w' same

  with_channel-Ends :
      (w w' : World) (channel : Option Channel)
      → Same w w'
      → Ends now payload t w (with_channel google now payload channel w')
  with_channel-Ends w w' none same =
      fail-Ends w w' (text "channel_not_found")
        (text "Channel " ++ decimal payload.channel_id ++ text " not found") none same
  with_channel-Ends w w' (some channel) same =
      with_console-Ends w w' channel (console_of channel.console_id w'.db.consoles) same

-- Whatever the channel, the credentials and YouTube do, an upload leaves its task completed, with
-- the id of the video and the local files removed, or failed, with one alert, no like and no file
-- removed. It never leaves it processing, it changes no other task, and it does so whatever the
-- status was, cancelled included.
pub process_upload-Ends :
    (google : Google) (now : ℕ) (payload : VideoUploadPayload) (t : Task) (w : World)
    → get_task w.db payload.task_id ≡ some t
    → Ends now payload
        (set_status_row now processing none none t)
        w
        (process_upload google now payload w)
unfolding process_upload
process_upload-Ends google now payload t w found =
    with_channel-Ends google now payload (set_status_row now processing none none t) w
      (start_task now payload.task_id w)
      (get_channel_by_id payload.channel_id (start_task now payload.task_id w).db.channels)
      (record {
        here =
            mark_task_processing-get now payload.task_id w.db
            ∙ ap (Option.map (set_status_row now processing none none)) found;
        removed = refl;
        liked = refl;
        alerts = refl;
        others = λ j ne. mark_task_processing-leaves j now payload.task_id w.db ne;
      })
