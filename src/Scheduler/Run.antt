-- ===== src/Scheduler/Run.antt =====
-- prod/scheduler/run.py: what the main loop runs in each cycle, and the daily tasks among it.
pub mod Laws
use content_fabric.Base.{
  ℕ, Bool, true, false, not, Option, none, some, List, [], ◌∷◌, ◌++◌, ◌==◌, if◌then◌else◌,
}

-- the calls of one cycle
pub data Step : Type 0 where
  enqueue_pending periodic_jobs reconcile_streams : Step
  validate_tokens channel_stats video_stats : Step

pub record Daily : Type 0 where
  pub last_token_check_date : Option ℕ
  pub last_stats_date : Option ℕ

-- One cycle: the date, and whether the check of the tokens returns. All other exceptions are only
-- logged.
pub record Cycle : Type 0 where
  pub today : ℕ
  pub check_returns : Bool

-- `last == today`
abbrev pub is_today : ℕ → Option ℕ → Bool
is_today today none = false
is_today today (some d) = d == today

abbrev pub token_step : Cycle → Daily → List Step × Daily
token_step c d = if is_today c.today d.last_token_check_date then ([], d) else (
  validate_tokens ∷ [],
  if c.check_returns then record d { last_token_check_date = some c.today } else d,
)

abbrev pub stats_step : Cycle → Daily → List Step × Daily
stats_step c d =
    if is_today c.today d.last_stats_date
    then ([], d)
    else (channel_stats ∷ video_stats ∷ [], record d { last_stats_date = some c.today })

unfoldable pub cycle : Cycle → Daily → List Step × Daily
cycle c d =
    let (tokens, d1) = token_step c d in
    let (stats, d2) = stats_step c d1 in
    (enqueue_pending ∷ periodic_jobs ∷ reconcile_streams ∷ (tokens ++ stats), d2)

-- The cycles of the loop until a signal stops it.
unfoldable pub main_loop : List Cycle → Daily → List Step × Daily
unfolding cycle
main_loop [] d = ([], d)
main_loop (c ∷ cs) d =
    let (steps, d1) = cycle c d in let (rest, d2) = main_loop cs d1 in (steps ++ rest, d2)
