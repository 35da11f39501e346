-- ===== src/Scheduler/Reconcile/Laws.antt =====
-- The pause between two looks at one stream.
use content_fabric.Base.{
  ℕ, ◌+◌, ◌≤◌, ◌<◌, ◌≡◌, sym, ◌∙◌, true, false, List, [], ◌∷◌, Bool-cases, inl, inr, ◌==◌, arith,
  All, All-imp, true-false, ==_refl, lt→ltb,
}
use content_fabric.Streams.{Stream, Host}
use content_fabric.Streams.Handlers.{enabled_streams}
use content_fabric.Scheduler.Reconcile.{
  Healing, last_at, is_cooling, Pass, reconcile_one, reconcile_loop, reconcile_streams,
}

-- A stream that was looked at no earlier than a time.
abbrev Since : ℕ → List (ℕ × ℕ) → Stream → Type 0
Since now ats s = now ≤ last_at s.id ats

looked : (now : ℕ) (s : Stream) (ats : List (ℕ × ℕ)) → Since now ((s.id, now) ∷ ats) s
unfolding last_at
looked now s ats = rw (==_refl s.id) (omega arith)

looked_later :
    (now k : ℕ) (s : Stream) (ats : List (ℕ × ℕ)) → Since now ats s → Since now ((k, now) ∷ ats) s
unfolding last_at
looked_later now k s ats h = elim (Bool-cases (k == s.id)) [
  | inl same ↦ rw same (omega arith)
  | inr other ↦ rw other h
]

-- What one round does to the record.
reconcile_one-Since :
    (host : Host) (now : ℕ) (s t : Stream) (pass : Pass)
    → Since now pass.state.last_reconcile_at t
    → Since now (reconcile_one host now s pass).state.last_reconcile_at t
reconcile_one-Since host now s t pass h =
    elim (Bool-cases (is_cooling now s pass.state.last_reconcile_at)) [
      | inl cooling ↦ rw cooling h
      | inr due ↦ rw due (looked_later now s.id t pass.state.last_reconcile_at h)
    ]

reconcile_loop-Since :
    (host : Host) (now : ℕ) (ss : List Stream) (t : Stream) (pass : Pass)
    → Since now pass.state.last_reconcile_at t
    → Since now (reconcile_loop host now ss pass).state.last_reconcile_at t
unfolding reconcile_loop
reconcile_loop-Since host now [] t pass h = h
reconcile_loop-Since host now (s ∷ ss) t pass h =
    reconcile_loop-Since host now ss t (reconcile_one host now s pass)
      (reconcile_one-Since host now s t pass h)

-- If a stream is cooling, then because of this very moment.
abbrev IsFresh : ℕ → List (ℕ × ℕ) → Stream → Type 0
IsFresh now ats s = is_cooling now s ats ≡ true → Since now ats s

IsFresh-looked :
    (now k : ℕ) (s : Stream) (ats : List (ℕ × ℕ))
    → IsFresh now ats s
    → IsFresh now ((k, now) ∷ ats) s
unfolding last_at
IsFresh-looked now k s ats h = elim (Bool-cases (k == s.id)) [
  | inl same ↦ λ cooling. rw same (omega arith)
  | inr other ↦ rw other h
]

reconcile_one-IsFresh :
    (host : Host) (now : ℕ) (s t : Stream) (pass : Pass)
    → IsFresh now pass.state.last_reconcile_at t
    → IsFresh now (reconcile_one host now s pass).state.last_reconcile_at t
reconcile_one-IsFresh host now s t pass h =
    elim (Bool-cases (is_cooling now s pass.state.last_reconcile_at)) [
      | inl cooling ↦ rw cooling h
      | inr due ↦ rw due (IsFresh-looked now s.id t pass.state.last_reconcile_at h)
    ]

reconcile_one-looked :
    (host : Host) (now : ℕ) (s : Stream) (pass : Pass)
    → IsFresh now pass.state.last_reconcile_at s
    → Since now (reconcile_one host now s pass).state.last_reconcile_at s
reconcile_one-looked host now s pass h =
    elim (Bool-cases (is_cooling now s pass.state.last_reconcile_at)) [
      | inl cooling ↦ rw cooling (h cooling)
      | inr due ↦ rw due (looked now s pass.state.last_reconcile_at)
    ]

reconcile_loop-looked :
    (host : Host) (now : ℕ) (ss : List Stream) (pass : Pass)
    → All (IsFresh now pass.state.last_reconcile_at) ss
    → All (Since now (reconcile_loop host now ss pass).state.last_reconcile_at) ss
unfolding reconcile_loop
reconcile_loop-looked host now [] pass h = tt
reconcile_loop-looked host now (s ∷ ss) pass h =
    let next = reconcile_one host now s pass in
    (
      reconcile_loop-Since host now ss s next (reconcile_one-looked host now s pass h.0),
      reconcile_loop-looked host now ss next
          (All-imp (λ t. reconcile_one-IsFresh host now s t pass) ss h.1),
    )

Since-cooling :
    (now later : ℕ) (s : Stream) (ats : List (ℕ × ℕ))
    → later < now + 300
    → Since now ats s
    → is_cooling later s ats ≡ true
Since-cooling now later s ats soon h = lt→ltb later _ (omega (arith, soon, h))

-- If no enabled stream is in its pause, then after a pass of the scheduler all of them are, for the
-- next 300 seconds.
pub reconcile_streams-pause :
    (host : Host) (now later : ℕ) (h : Healing)
    → later < now + 300
    → All (λ s. is_cooling now s h.last_reconcile_at ≡ false) (enabled_streams h.site.streams)
    → All
        (λ s. is_cooling later s (reconcile_streams host now h).state.last_reconcile_at ≡ true)
        (enabled_streams h.site.streams)
unfolding reconcile_streams
reconcile_streams-pause host now later h soon due =
    let streams : List Stream = enabled_streams h.site.streams in
    All-imp (λ s. Since-cooling now later s _ soon) streams
      (reconcile_loop-looked host now streams (record { checked = 0; healed = 0; state = h })
        (All-imp (λ s free cooling. absurd (true-false (sym cooling ∙ free))) streams due))
