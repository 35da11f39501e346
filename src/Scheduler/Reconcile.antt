-- ===== src/Scheduler/Reconcile.antt =====
-- prod/scheduler/jobs.py: `reconcile_streams`, which heals the enabled streams with a pause for each.
pub mod Laws
use content_fabric.Base.{
  ℕ, ◌+◌, Bool, true, false, not, Option, none, some, List, [], ◌∷◌, if◌then◌else◌, ltb, ◌==◌,
}
use content_fabric.Streams.{Stream, Site, Host}
use content_fabric.Streams.Lifecycle.{Reconciled, noop, started, reconcile}
use content_fabric.Streams.Handlers.{enabled_streams}

abbrev pub reconcile_cooldown_sec : ℕ
reconcile_cooldown_sec = 300

-- `_last_reconcile_at`, the latest entry first
pub record Healing : Type 0 where
  pub site : Site
  pub last_reconcile_at : List (ℕ × ℕ)

-- `_last_reconcile_at.get(sid, 0.0)`
unfoldable pub last_at : ℕ → List (ℕ × ℕ) → ℕ
last_at sid [] = 0
last_at sid ((other, at) ∷ ats) = if other == sid then at else last_at sid ats

-- `now - last < _RECONCILE_COOLDOWN_SEC`
abbrev pub is_cooling : ℕ → Stream → List (ℕ × ℕ) → Bool
is_cooling now s ats = ltb now (last_at s.id ats + reconcile_cooldown_sec)

abbrev pub healed_by : Reconciled → ℕ → ℕ
healed_by noop healed = healed
healed_by (started reason report) healed = healed + 1

-- (checked, healed), and the state
pub record Pass : Type 0 where
  pub checked : ℕ
  pub healed : ℕ
  pub state : Healing

-- The branch for an exception of `lifecycle.reconcile`, which leaves the stream without an entry,
-- is left out: that function catches what its own calls raise.
abbrev pub reconcile_one : Host → ℕ → Stream → Pass → Pass
reconcile_one host now s pass =
    if is_cooling now s pass.state.last_reconcile_at
    then pass
    else let (result, site') = reconcile host s pass.state.site in
      record {
        checked = pass.checked + 1;
        healed = healed_by result pass.healed;
        state = record {
          site = site';
          last_reconcile_at = (s.id, now) ∷ pass.state.last_reconcile_at;
        };
      }

unfoldable pub reconcile_loop : Host → ℕ → List Stream → Pass → Pass
reconcile_loop host now [] pass = pass
reconcile_loop host now (s ∷ ss) pass = reconcile_loop host now ss (reconcile_one host now s pass)

-- `now` is `time.time()` in seconds; the rows are those of before the loop.
unfoldable pub reconcile_streams : Host → ℕ → Healing → Pass
unfolding reconcile_loop
reconcile_streams host now h =
    reconcile_loop host now (enabled_streams h.site.streams)
      (record { checked = 0; healed = 0; state = h })
