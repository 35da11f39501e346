-- ===== src/Scheduler/Run/Laws.antt =====
-- The daily tasks of the main loop.
use content_fabric.Base.{
  ℕ, ◌+◌, ◌≡◌, refl, ap, ◌∙◌, Bool, true, false, List, [], ◌∷◌, ◌++◌, map, ==_refl, if◌then◌else◌,
  arith, Bool-cases, inl, inr,
}
use content_fabric.Table.{count_where}
use content_fabric.Scheduler.Run.{
  Step, validate_tokens, channel_stats, Daily, Cycle, is_today, token_step, stats_step, cycle,
  main_loop,
}

abbrev pub is_validation : Step → Bool
is_validation validate_tokens = true
is_validation _ = false

abbrev pub is_stats : Step → Bool
is_stats channel_stats = true
is_stats _ = false

-- The cycles of one day, by whether the check of the tokens returns in each.
abbrev pub day_of : ℕ → List Bool → List Cycle
day_of day results = map (λ r. record { today = day; check_returns = r }) results

-- The checks up to the first that returns.
abbrev pub until_first : List Bool → ℕ
until_first [] = 0
until_first (true ∷ results) = 1
until_first (false ∷ results) = 1 + until_first results

count_where-append :
    (p : Step → Bool) (xs ys : List Step)
    → count_where p (xs ++ ys) ≡ count_where p xs + count_where p ys
count_where-append p [] ys = omega arith
count_where-append p (x ∷ xs) ys = omega (arith, count_where-append p xs ys)

abbrev at_day : ℕ → Bool → Cycle
at_day day r = record { today = day; check_returns = r }

first_check :
    (r b : Bool) (results : List Bool)
    → (if b then 0 else 1) + (if (if b then true else r) then 0 else until_first results)
      ≡ (if b then 0 else until_first (r ∷ results))
first_check r true results = refl
first_check true false results = refl
first_check false false results = refl

module _ (day : ℕ) where
  stats-validations :
      (r : Bool) (d : Daily) → count_where is_validation (stats_step (at_day day r) d).0 ≡ 0
  stats-validations r d = elim (Bool-cases (is_today day d.last_stats_date)) [
    | inl collected ↦ rw collected refl
    | inr due ↦ rw due (omega arith)
  ]

  -- What a cycle does for the tokens: one check if none has returned today.
  cycle-validations :
      (r : Bool) (d : Daily)
      → count_where is_validation (cycle (at_day day r) d).0
        ≡ (if is_today day d.last_token_check_date then 0 else 1)
  unfolding cycle
  cycle-validations r d =
      let tokens = token_step (at_day day r) d in
      let split =
        count_where-append is_validation tokens.0 (stats_step (at_day day r) tokens.1).0 in
      let none_there = stats-validations r tokens.1 in
      elim (Bool-cases (is_today day d.last_token_check_date)) [
        | inl checked ↦ rw checked (omega (arith, rw checked at split, rw checked at none_there))
        | inr due ↦ rw due (omega (arith, rw due at split, rw due at none_there))
      ]

  stats-keeps_tokens :
      (r : Bool) (d : Daily)
      → (stats_step (at_day day r) d).1.last_token_check_date ≡ d.last_token_check_date
  stats-keeps_tokens r d = elim (Bool-cases (is_today day d.last_stats_date)) [
    | inl collected ↦ rw collected refl
    | inr due ↦ rw due refl
  ]

  token-date :
      (r : Bool) (d : Daily)
      → is_today day (token_step (at_day day r) d).1.last_token_check_date
        ≡ (if is_today day d.last_token_check_date then true else r)
  token-date true d = elim (Bool-cases (is_today day d.last_token_check_date)) [
    | inl checked ↦ rw checked checked
    | inr due ↦ rw due (==_refl day)
  ]
  token-date false d = elim (Bool-cases (is_today day d.last_token_check_date)) [
    | inl checked ↦ rw checked checked
    | inr due ↦ rw due due
  ]

  cycle-date :
      (r : Bool) (d : Daily)
      → is_today day (cycle (at_day day r) d).1.last_token_check_date
        ≡ (if is_today day d.last_token_check_date then true else r)
  unfolding cycle
  cycle-date r d =
      ap (is_today day) (stats-keeps_tokens r (token_step (at_day day r) d).1) ∙ token-date r d

  validations :
      (results : List Bool) (d : Daily)
      → count_where is_validation (main_loop (day_of day results) d).0
        ≡ (if is_today day d.last_token_check_date then 0 else until_first results)
  unfolding main_loop
  validations [] d = ground arith
  validations (r ∷ results) d =
      let next = (cycle (at_day day r) d).1 in
      count_where-append is_validation (cycle (at_day day r) d).0
        (main_loop (day_of day results) next).0
      ∙ ap (λ n. n + count_where is_validation (main_loop (day_of day results) next).0)
          (cycle-validations r d)
      ∙ ap (λ n. (if is_today day d.last_token_check_date then 0 else 1) + n)
          (validations results next)
      ∙ ap
          (λ b.
            (if is_today day d.last_token_check_date then 0 else 1)
            + (if b then 0 else until_first results))
          (cycle-date r d)
      ∙ first_check r (is_today day d.last_token_check_date) results

-- However many cycles a day has, the tokens are checked until a check returns and not after, and not
-- at all if one has returned that day already.
pub main_loop-validations :
    (day : ℕ) (results : List Bool) (d : Daily)
    → count_where is_validation (main_loop (day_of day results) d).0
      ≡ (if is_today day d.last_token_check_date then 0 else until_first results)
main_loop-validations = validations

-- What a cycle does for the statistics.
stats-count :
    (day : ℕ) (r : Bool) (d : Daily)
    → count_where is_stats (stats_step (at_day day r) d).0
      ≡ (if is_today day d.last_stats_date then 0 else 1)
stats-count day r d = elim (Bool-cases (is_today day d.last_stats_date)) [
  | inl collected ↦ rw collected refl
  | inr due ↦ rw due (omega arith)
]

stats-date :
    (day : ℕ) (r : Bool) (d : Daily)
    → is_today day (stats_step (at_day day r) d).1.last_stats_date ≡ true
stats-date day r d = elim (Bool-cases (is_today day d.last_stats_date)) [
  | inl collected ↦ rw collected collected
  | inr due ↦ rw due (==_refl day)
]

-- A step on the tokens collects no statistics, and leaves their date.
token-stats :
    (day : ℕ) (r : Bool) (d : Daily)
    → (count_where is_stats (token_step (at_day day r) d).0 ≡ 0)
      × ((token_step (at_day day r) d).1.last_stats_date ≡ d.last_stats_date)
token-stats day true d = elim (Bool-cases (is_today day d.last_token_check_date)) [
  | inl checked ↦ rw checked (refl, refl)
  | inr due ↦ rw due (omega arith, refl)
]
token-stats day false d = elim (Bool-cases (is_today day d.last_token_check_date)) [
  | inl checked ↦ rw checked (refl, refl)
  | inr due ↦ rw due (omega arith, refl)
]

cycle-stats :
    (day : ℕ) (r : Bool) (d : Daily)
    → count_where is_stats (cycle (at_day day r) d).0
      ≡ (if is_today day d.last_stats_date then 0 else 1)
unfolding cycle
cycle-stats day r d =
    let tokens = token_step (at_day day r) d in
    let t = token-stats day r d in
    let split = count_where-append is_stats tokens.0 (stats_step (at_day day r) tokens.1).0 in
    let here = stats-count day r tokens.1 ∙ ap (λ l. if is_today day l then 0 else 1) t.1 in
    omega (arith, split, t.0, here)

stats_later :
    (day : ℕ) (results : List Bool) (d : Daily)
    → is_today day d.last_stats_date ≡ true
    → count_where is_stats (main_loop (day_of day results) d).0 ≡ 0
unfolding main_loop
stats_later day [] d h = refl
stats_later day (r ∷ results) d h =
    let next = (cycle (at_day day r) d).1 in
    let split =
      count_where-append is_stats (cycle (at_day day r) d).0
        (main_loop (day_of day results) next).0 in
    let here = cycle-stats day r d ∙ ap (λ b. if b then 0 else 1) h in
    let rest = stats_later day results next (stats-date day r (token_step (at_day day r) d).1) in
    omega (arith, split, here, rest)

-- The statistics are collected exactly once in a day that has a cycle, whether the check of the
-- tokens returns or not, unless they have been collected that day already.
pub main_loop-stats :
    (day : ℕ) (r : Bool) (results : List Bool) (d : Daily)
    → count_where is_stats (main_loop (day_of day (r ∷ results)) d).0
      ≡ (if is_today day d.last_stats_date then 0 else 1)
unfolding main_loop
main_loop-stats day r results d =
    let next = (cycle (at_day day r) d).1 in
    let split =
      count_where-append is_stats (cycle (at_day day r) d).0
        (main_loop (day_of day results) next).0 in
    let rest = stats_later day results next (stats-date day r (token_step (at_day day r) d).1) in
    split
    ∙ ap (λ n. count_where is_stats (cycle (at_day day r) d).0 + n) rest
    ∙ omega arith
    ∙ cycle-stats day r d
