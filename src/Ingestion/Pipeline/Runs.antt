-- ===== src/Ingestion/Pipeline/Runs.antt =====
-- The runs of the ingestion.
use content_fabric.Base.{
  ℕ, ◌+◌, ◌*◌, ◌≤◌, ◌<◌, ◌≡◌, sym, ap, ◌∙◌, true, inl, inr, Option, List, [], ◌∷◌, arith, All-imp,
  Option-cases, refl, false, ◌++◌,
}
use content_fabric.Text.{Text}
use content_fabric.Text.Decimal.{decimal}
use content_fabric.Text.Digits.{decimal-more}
use content_fabric.Tasks.{Db}
use content_fabric.Ingestion.Client.{DleRow, Post, fetch_recent_posts}
use content_fabric.Ingestion.Pipeline.{
  Ingest, IngestSite, is_already_processed, ingest_post, ingest_posts, run,
}
use content_fabric.Ingestion.Pipeline.Written.{IsSlug}
use content_fabric.Ingestion.Pipeline.Laws.{
  Grows, Grows-ingest_post, Grows-ingest_posts, create_cff_task-none, create_cff_task-some,
  ingest_post-new,
}
use content_fabric.Ingestion.Pipeline.Once.{
  Settled, Settled-ingest_posts, Settled-later, ingest_post_unchanged, ingest_posts_unchanged,
  count-ingest_posts, length-fetch_recent_posts, found_new,
}

-- the same source and table, at another time
abbrev pub at_later : ℕ → Text → Ingest → Ingest
at_later now trace_id env = record env { now = now; trace_id = trace_id }

module _ (env : Ingest) where
  -- A run on a table with a positive next id makes tasks at the end of the table that are pending,
  -- have no file, are due in five minutes and belong to the channel, counts them, queues a job for
  -- each that Redis takes, in order, and makes at most its limit.
  pub run-Grows :
      (limit : ℕ) (rows : Option (List DleRow)) (site : IngestSite)
      → 0 < site.db.next_id
      → Grows env (0, site) (run env limit rows site) × ((run env limit rows site).0 ≤ limit)
  unfolding run
  run-Grows limit rows site h = (
    Grows-ingest_posts env (fetch_recent_posts limit 0 rows) (0, site) h,
    omega (
      arith,
      count-ingest_posts env (fetch_recent_posts limit 0 rows) (0, site),
      length-fetch_recent_posts limit 0 rows,
    ),
  )

  same_question :
      (now : ℕ) (trace_id : Text) (db : Db) (post : Post)
      → Settled env db post
      → Settled (at_later now trace_id env) db post
  unfolding is_already_processed
  same_question now trace_id db post (inl missing) = inl missing
  same_question now trace_id db post (inr old) = inr old

  -- Where the collation takes each character for itself and the slug is of lower-case letters,
  -- digits and underscores, a second run over the same posts, at whatever time, makes no task and
  -- changes nothing.
  pub run-once :
      ((c : ℕ) → env.same c c ≡ true)
      → IsSlug env.source_slug
      → (limit now : ℕ) (trace_id : Text) (rows : Option (List DleRow)) (site : IngestSite)
      → 0 < site.db.next_id
      → run (at_later now trace_id env) limit rows (run env limit rows site).1
        ≡ (0, (run env limit rows site).1)
  unfolding run
  run-once equal slug limit now trace_id rows site h =
      let posts = fetch_recent_posts limit 0 rows in
      ingest_posts_unchanged (at_later now trace_id env) posts 0
        (ingest_posts env posts (0, site)).1
        (All-imp (same_question now trace_id (ingest_posts env posts (0, site)).1.db) posts
          (Settled-ingest_posts env equal slug posts (0, site) h))

  ingest_posts-append :
      (posts more : List Post) (s : ℕ × IngestSite)
      → ingest_posts env (posts ++ more) s ≡ ingest_posts env more (ingest_posts env posts s)
  unfolding ingest_posts
  ingest_posts-append [] more s = refl
  ingest_posts-append (post ∷ posts) more s =
      ingest_posts-append posts more (ingest_post env post s)

-- A post that is settled when a run comes to it might as well not be there.
abbrev pub IsSkipped : Ingest → Post → List Post → List Post → ℕ × IngestSite → Type 0
IsSkipped env post posts more s =
    ingest_posts env (posts ++ post ∷ more) s ≡ ingest_posts env (posts ++ more) s

module _ (env : Ingest) where
  ingest_posts-IsSkipped :
      (post : Post) (posts more : List Post) (s : ℕ × IngestSite)
      → Settled env (ingest_posts env posts s).1.db post
      → IsSkipped env post posts more s
  unfolding ingest_posts
  ingest_posts-IsSkipped post posts more s h =
      let s' : ℕ × IngestSite = ingest_posts env posts s in
      ingest_posts-append env posts (post ∷ more) s
      ∙ ap (ingest_posts env more) (ingest_post_unchanged env post s'.0 s'.1 h)
      ∙ sym (ingest_posts-append env posts more s)

  module _ (equal : (c : ℕ) → env.same c c ≡ true) (slug : IsSlug env.source_slug)
      (long short : Post) (digit : ℕ) (e : long.id ≡ 10 * short.id + digit) (pos : 0 < short.id)
      (small : digit < 10) (between : List Post) (s : ℕ × IngestSite) (next : 0 < s.1.db.next_id)
      (new : is_already_processed env long.id s.1.db ≡ false) where
    prefix-Settled : Settled env (ingest_post env long s).1.db short
    prefix-Settled =
        rw (ingest_post-new env long s.0 s.1 new) (elim (Option-cases s.1.db.default_project) [
          | inl missing ↦ rw (create_cff_task-none env long s.1.db missing) (inl missing)
          | inr (project, found) ↦ rw (create_cff_task-some env long s.1.db project found) (
              inr (
                found_new env equal long short.id s.0 project s.1 ((b'0' + digit) ∷ []) slug
                  (ap decimal e ∙ decimal-more short.id digit pos small)))
        ])

    prefix-Settled_later : Settled env (ingest_posts env (long ∷ between) s).1.db short
    unfolding ingest_posts
    prefix-Settled_later =
        let made : ℕ × IngestSite = ingest_post env long s in
        Settled-later env short made (ingest_posts env between made)
          (Grows-ingest_posts env between made (Grows-ingest_post env long s.0 s.1 next).next_id)
          prefix-Settled

module _ (env : Ingest) where
  -- Where the collation takes each character for itself and the slug is of lower-case letters,
  -- digits and underscores, and the next id is positive: when a run comes to a post that is not yet
  -- processed, another one whose id, above 0, is that of the first without its last digit is
  -- skipped wherever it stands after it in this run, and wherever it stands in the next run, at any
  -- time: both go as if it were not among the posts, and make no task of it.
  pub ingest_posts-skips_prefix :
      ((c : ℕ) → env.same c c ≡ true)
      → IsSlug env.source_slug
      → (long short : Post) (digit : ℕ) → long.id ≡ 10 * short.id + digit
      → 0 < short.id
      → digit < 10
      → (between : List Post) (s : ℕ × IngestSite) → 0 < s.1.db.next_id
      → is_already_processed env long.id s.1.db ≡ false
      → ((more : List Post) → IsSkipped env short (long ∷ between) more s)
        × ((now : ℕ) (trace_id : Text) (count : ℕ) (posts more : List Post)
            → IsSkipped
                (at_later now trace_id env)
                short
                posts
                more
                (count, (ingest_posts env (long ∷ between) s).1))
  ingest_posts-skips_prefix equal slug long short digit e pos small between s next new =
      let settled =
        prefix-Settled_later env equal slug long short digit e pos small between s next new in
      let done : IngestSite = (ingest_posts env (long ∷ between) s).1 in
      (
        λ more. ingest_posts-IsSkipped env short (long ∷ between) more s settled,
        λ now trace_id count posts more.
            let env' : Ingest = at_later now trace_id env in
            let g = Grows-ingest_posts env (long ∷ between) s next in
            let old : Settled env' done.db short =
              same_question env now trace_id done.db short settled in
            ingest_posts-IsSkipped env' short posts more (count, done)
              (Settled-later env' short (count, done) (ingest_posts env' posts (count, done))
                (Grows-ingest_posts env' posts (count, done) g.next_id) old),
      )
