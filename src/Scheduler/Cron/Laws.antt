-- ===== src/Scheduler/Cron/Laws.antt =====
-- The timetable fires each job once a minute.
use content_fabric.Base.{
  ℕ, ◌+◌, ◌≡◌, refl, sym, ap, ◌∙◌, Bool, true, false, List, [], ◌∷◌, ◌++◌, arith, ◌==◌, Bool-cases,
  inl, inr, length, keep, All, ==_refl, pair-eq,
}
use mathlib.Core.List.{append_assoc, append-nil}
use content_fabric.Text.{Text, text_eq, text_eq_refl}
use content_fabric.Queue.{Job}
use content_fabric.Scheduler.Cron.{
  enqueue_each, CronEntry, yii_cron, Minute, same_minute, CronState, last_run_of, ran_in,
  is_skipped, run_entry, run_entries, run_periodic_yii_jobs,
}

-- A batch puts into the queues, in order, the jobs that Redis takes, and counts them.
pub enqueue_each_lem :
    (redis : Job → Bool) (jobs : List Job) (count : ℕ) (queue : List Job)
    → enqueue_each redis jobs (count, queue)
      ≡ (count + length (keep redis jobs), queue ++ keep redis jobs)
unfolding enqueue_each
enqueue_each_lem redis [] count queue = pair-eq (omega arith) (sym (append-nil queue))
enqueue_each_lem redis (job ∷ jobs) count queue = elim (Bool-cases (redis job)) [
  | inl taken ↦ rw taken (
      enqueue_each_lem redis jobs (count + 1) (queue ++ job ∷ [])
      ∙ pair-eq (omega arith) (append_assoc queue (job ∷ []) (keep redis jobs)))
  | inr lost ↦ rw lost (enqueue_each_lem redis jobs count queue)
]

-- A job that has run in this minute.
abbrev HasRun : Minute → List (Text × Minute) → CronEntry → Type 0
HasRun now runs e = ran_in now (last_run_of e.job_name runs) ≡ true

same_minute_refl : (m : Minute) → same_minute m m ≡ true
same_minute_refl m = rw (==_refl m.date, ==_refl m.hh, ==_refl m.mm) refl

fire-HasRun :
    (now : Minute) (e : CronEntry) (runs : List (Text × Minute))
    → HasRun now ((e.job_name, now) ∷ runs) e
unfolding last_run_of
fire-HasRun now e runs = rw (text_eq_refl e.job_name) (same_minute_refl now)

fire-keeps :
    (now : Minute) (e d : CronEntry) (runs : List (Text × Minute))
    → HasRun now runs d
    → HasRun now ((e.job_name, now) ∷ runs) d
unfolding last_run_of
fire-keeps now e d runs h = elim (Bool-cases (text_eq e.job_name d.job_name)) [
  | inl same ↦ rw same (same_minute_refl now)
  | inr other ↦ rw other h
]

run_entry-keeps :
    (redis : Job → Bool) (now : Minute) (e d : CronEntry) (s : ℕ × CronState)
    → HasRun now s.1.last_run d
    → HasRun now (run_entry redis now e s).1.last_run d
run_entry-keeps redis now e d (fired, st) h = elim (Bool-cases (is_skipped now st.last_run e)) [
  | inl skipped ↦ rw skipped h
  | inr due ↦ rw due (fire-keeps now e d st.last_run h)
]

run_entry-HasRun :
    (redis : Job → Bool) (now : Minute) (e : CronEntry) (fired : ℕ) (st : CronState)
    → is_skipped now st.last_run e ≡ false
    → HasRun now (run_entry redis now e (fired, st)).1.last_run e
run_entry-HasRun redis now e fired st due = rw due (fire-HasRun now e st.last_run)

run_entries-keeps :
    (redis : Job → Bool) (now : Minute) (es : List CronEntry) (d : CronEntry) (s : ℕ × CronState)
    → HasRun now s.1.last_run d
    → HasRun now (run_entries redis now es s).1.last_run d
unfolding run_entries
run_entries-keeps redis now [] d s h = h
run_entries-keeps redis now (e ∷ es) d s h =
    run_entries-keeps redis now es d (run_entry redis now e s) (run_entry-keeps redis now e d s h)

HasRun-skipped :
    (now : Minute) (runs : List (Text × Minute)) (e : CronEntry)
    → HasRun now runs e
    → is_skipped now runs e ≡ true
HasRun-skipped now runs e h = elim (Bool-cases (now.hh == e.hour)) [
  | inl hour ↦ elim (Bool-cases (now.mm == e.minute)) [
    | inl minute ↦ rw (hour, minute, h) refl
    | inr off ↦ rw (hour, off) refl
  ]
  | inr off ↦ rw off refl
]

-- An entry that is passed over because of the time is passed over whatever has run.
skipped_later :
    (now : Minute) (runs later : List (Text × Minute)) (e : CronEntry)
    → is_skipped now runs e ≡ true
    → (HasRun now runs e → HasRun now later e)
    → is_skipped now later e ≡ true
skipped_later now runs later e h keeps = elim (Bool-cases (now.hh == e.hour)) [
  | inl hour ↦ elim (Bool-cases (now.mm == e.minute)) [
    | inl minute ↦ HasRun-skipped now later e (keeps (rw (hour, minute) at h))
    | inr off ↦ rw (hour, off) refl
  ]
  | inr off ↦ rw off refl
]

run_entries-skipped :
    (redis : Job → Bool) (now : Minute) (es : List CronEntry) (s : ℕ × CronState)
    → All (λ e. is_skipped now (run_entries redis now es s).1.last_run e ≡ true) es
unfolding run_entries
run_entries-skipped redis now [] s = tt
run_entries-skipped redis now (e ∷ es) (fired, st) = (
  elim (Bool-cases (is_skipped now st.last_run e)) [
    | inl skipped ↦
        skipped_later now st.last_run _ e skipped
          (λ h. run_entries-keeps redis now es e _ (run_entry-keeps redis now e e (fired, st) h))
    | inr due ↦
        HasRun-skipped now _ e
          (run_entries-keeps redis now es e _ (run_entry-HasRun redis now e fired st due))
  ],
  run_entries-skipped redis now es (run_entry redis now e (fired, st)),
)

run_entries_idle :
    (redis : Job → Bool) (now : Minute) (es : List CronEntry) (s : ℕ × CronState)
    → All (λ e. is_skipped now s.1.last_run e ≡ true) es
    → run_entries redis now es s ≡ s
unfolding run_entries
run_entries_idle redis now [] s h = refl
run_entries_idle redis now (e ∷ es) (fired, st) h =
    ap (run_entries redis now es) (skip fired st h.0)
    ∙ run_entries_idle redis now es (fired, st) h.1
  where
    skip :
        (fired : ℕ) (st : CronState)
        → is_skipped now st.last_run e ≡ true
        → run_entry redis now e (fired, st) ≡ (fired, st)
    skip fired st skipped = rw skipped refl

-- The timetable fires nothing twice in a minute: a second call in the minute of the first reports 0
-- and changes neither the queues nor the record of the runs.
pub run_periodic_yii_jobs-once :
    (redis : Job → Bool) (now : Minute) (st : CronState)
    → let st' = (run_periodic_yii_jobs redis now st).1 in
      run_periodic_yii_jobs redis now st' ≡ (0, st')
unfolding run_periodic_yii_jobs
run_periodic_yii_jobs-once redis now st =
    run_entries_idle redis now yii_cron (0, (run_entries redis now yii_cron (0, st)).1)
      (run_entries-skipped redis now yii_cron (0, st))
