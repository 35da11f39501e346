-- ===== src/Ingestion/Pipeline/Laws.antt =====
-- What a run of the ingestion makes, and that it makes nothing twice.
use content_fabric.Base.{
  ℕ, ◌+◌, ◌<◌, ◌≡◌, refl, sym, ap, ◌∙◌, Bool, true, false, inl, inr, none, some, List, [], ◌∷◌,
  ◌++◌, arith, map, keep, length, All, All-append, Bool-cases, Option-cases, is_some, ◌==◌,
  length-append, keep-append,
}
use content_fabric.Table.{fetch_one}
use content_fabric.Tasks.{Task, Db, pending}
use content_fabric.Tasks.Insert.{create_task, insert_task, new_row}
use content_fabric.Queue.{Job, dle_processing}
use content_fabric.Ingestion.Client.{Post}
use content_fabric.Ingestion.Pipeline.{
  Ingest, IngestSite, dle_task, with_job, after_create, create_cff_task, is_already_processed,
  ingest_post, ingest_posts,
}
use mathlib.Core.List.{append_assoc, append-nil, map-append}

module _ {A : Type 0} (p : A → Bool) where
  pub fetch_one-left :
      (rows more : List A)
      → is_some (fetch_one p rows) ≡ true
      → is_some (fetch_one p (rows ++ more)) ≡ true
  fetch_one-left [] more h = cc
  fetch_one-left (r ∷ rows) more h = elim (Bool-cases (p r)) [
    | inl hit ↦ rw hit refl
    | inr miss ↦ rw miss (fetch_one-left rows more (rw miss at h))
  ]

  pub fetch_one-right :
      (rows : List A) (r : A) → p r ≡ true → is_some (fetch_one p (rows ++ r ∷ [])) ≡ true
  fetch_one-right [] r h = rw h refl
  fetch_one-right (s ∷ rows) r h = elim (Bool-cases (p s)) [
    | inl hit ↦ rw hit refl
    | inr miss ↦ rw miss (fetch_one-right rows r h)
  ]

module _ (env : Ingest) where
  -- a task that waits for its audio
  pub record IsIngested (t : Task) : Type 0 where
    pub status : t.status ≡ pending
    pub no_file : t.source_file_path ≡ some []
    pub in_five_minutes : t.scheduled_at ≡ env.now + 300
    pub channel : t.channel_id ≡ env.channel_id
    pub media : t.media_type ≡ env.media_type

  abbrev pub processing_job : Task → Job
  processing_job t = dle_processing (record { dle_task_id = t.id })

  -- From the first count and site to the second: new tasks at the end of the table, counted, and a
  -- job for each that Redis takes.
  pub record Grows (s t : ℕ × IngestSite) : Type 0 where
    pub added : List Task
    pub tasks : t.1.db.tasks ≡ s.1.db.tasks ++ added
    pub counted : t.0 ≡ s.0 + length added
    pub ingested : All IsIngested added
    pub jobs : t.1.queue ≡ s.1.queue ++ keep env.redis (map processing_job added)
    pub project : t.1.db.default_project ≡ s.1.db.default_project
    pub next_id : 0 < t.1.db.next_id

  pub ingest_post-old :
      (post : Post) (count : ℕ) (site : IngestSite)
      → is_already_processed env post.id site.db ≡ true
      → ingest_post env post (count, site) ≡ (count, site)
  unfolding ingest_post
  ingest_post-old post count site e = rw e refl

  pub ingest_post-new :
      (post : Post) (count : ℕ) (site : IngestSite)
      → is_already_processed env post.id site.db ≡ false
      → ingest_post env post (count, site)
        ≡ after_create env count site (create_cff_task env post site.db)
  unfolding ingest_post
  ingest_post-new post count site e = rw e refl

  pub create_cff_task-none :
      (post : Post) (db : Db) → db.default_project ≡ none → create_cff_task env post db ≡ none
  unfolding create_task
  create_cff_task-none post db e = rw e refl

  pub create_cff_task-some :
      (post : Post) (db : Db) (project : ℕ)
      → db.default_project ≡ some project
      → create_cff_task env post db
        ≡ some (insert_task (env.uuid db.next_id) env.now project (dle_task env post) db)
  unfolding create_task
  create_cff_task-some post db project e = rw e refl

  Grows-refl : (s : ℕ × IngestSite) → 0 < s.1.db.next_id → Grows s s
  Grows-refl s h = record {
    added = [];
    tasks = sym (append-nil s.1.db.tasks);
    counted = omega arith;
    ingested = tt;
    jobs = sym (append-nil s.1.queue);
    project = refl;
    next_id = h;
  }

  Grows-trans : (s t u : ℕ × IngestSite) → Grows s t → Grows t u → Grows s u
  Grows-trans s t u g h = record {
    added = g.added ++ h.added;
    tasks = h.tasks ∙ ap (λ l. l ++ h.added) g.tasks ∙ append_assoc s.1.db.tasks g.added h.added;
    counted = omega (arith, length-append g.added h.added, g.counted, h.counted);
    ingested = All-append IsIngested g.added h.added g.ingested h.ingested;
    jobs =
        h.jobs
        ∙ ap (λ l. l ++ keep env.redis (map processing_job h.added)) g.jobs
        ∙ append_assoc s.1.queue (keep env.redis (map processing_job g.added))
            (keep env.redis (map processing_job h.added))
        ∙ ap (λ l. s.1.queue ++ l)
            (sym (
              ap (keep env.redis) (map-append processing_job g.added h.added)
              ∙ keep-append env.redis (map processing_job g.added) (map processing_job h.added)));
    project = h.project ∙ g.project;
    next_id = h.next_id;
  }

  with_job_lem :
      (k : ℕ) (queue : List Job)
      → with_job env k queue
        ≡ queue ++ keep env.redis (dle_processing (record { dle_task_id = k }) ∷ [])
  with_job_lem k queue =
      elim (Bool-cases (env.redis (dle_processing (record { dle_task_id = k })))) [
        | inl taken ↦ rw taken refl
        | inr lost ↦ rw lost (sym (append-nil queue))
      ]

  Grows-insert_task :
      (post : Post) (count project : ℕ) (site : IngestSite)
      → 0 < site.db.next_id
      → Grows
          (count, site)
          (after_create env count site (
            some
              (insert_task (env.uuid site.db.next_id) env.now project (dle_task env post) site.db)))
  Grows-insert_task post count project site h =
      let real : (site.db.next_id == 0) ≡ false = ground arith in
      record {
        added =
            new_row site.db.next_id (env.uuid site.db.next_id) project (dle_task env post) env.now
            ∷ [];
        tasks = refl;
        counted = rw real refl;
        ingested = (
          record {
            status = refl;
            no_file = refl;
            in_five_minutes = refl;
            channel = refl;
            media = refl;
          },
          tt,
        );
        jobs = with_job_lem site.db.next_id site.queue;
        project = refl;
        next_id = omega arith;
      }

  pub Grows-ingest_post :
      (post : Post) (count : ℕ) (site : IngestSite)
      → 0 < site.db.next_id
      → Grows (count, site) (ingest_post env post (count, site))
  Grows-ingest_post post count site h =
      elim (Bool-cases (is_already_processed env post.id site.db)) [
        | inl old ↦ rw (ingest_post-old post count site old) (Grows-refl (count, site) h)
        | inr new ↦
            rw (ingest_post-new post count site new) (elim (Option-cases site.db.default_project) [
              | inl missing ↦
                  rw (create_cff_task-none post site.db missing) (Grows-refl (count, site) h)
              | inr (project, found) ↦
                  rw (create_cff_task-some post site.db project found)
                    (Grows-insert_task post count project site h)
            ])
      ]

  pub Grows-ingest_posts :
      (posts : List Post) (s : ℕ × IngestSite)
      → 0 < s.1.db.next_id
      → Grows s (ingest_posts env posts s)
  unfolding ingest_posts
  Grows-ingest_posts [] s h = Grows-refl s h
  Grows-ingest_posts (post ∷ posts) (count, site) h =
      let g = Grows-ingest_post post count site h in
      Grows-trans (count, site) (ingest_post env post (count, site)) _ g
        (Grows-ingest_posts posts (ingest_post env post (count, site)) g.next_id)
