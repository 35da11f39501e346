-- ===== src/Ingestion/Pipeline/Once.antt =====
-- A run makes nothing twice, at most its limit, and skips an id that starts an older one.
use content_fabric.Base.{
  ℕ, ◌+◌, ◌≤◌, ◌<◌, ◌≡◌, refl, sym, ap, ◌∙◌, true, ◌⊎◌, inl, inr, Option, none, some, List, [], ◌∷◌,
  ◌++◌, arith, length, All, Bool-cases, Option-cases, length-take-le, length-map, keep, take, drop,
  ◌==◌,
}
use content_fabric.Text.{Text}
use content_fabric.Text.Decimal.{decimal}
use content_fabric.Table.Order.{order_by, descending}
use content_fabric.Tasks.{Task, Db}
use content_fabric.Tasks.Insert.{insert_task, new_row}
use content_fabric.Ingestion.Client.{DleRow, Post, read_post, fetch_recent_posts}
use content_fabric.Ingestion.Pipeline.{
  Ingest, IngestSite, dle_task, after_create, is_already_processed, ingest_post, ingest_posts,
  get_task_by_dle_id, like_column, dle_pattern,
}
use content_fabric.Ingestion.Pipeline.Written.{IsSlug, like_column-legacy_info}
use content_fabric.Ingestion.Pipeline.Laws.{
  Grows, Grows-ingest_post, Grows-ingest_posts, ingest_post-old, ingest_post-new,
  create_cff_task-none, create_cff_task-some, fetch_one-left, fetch_one-right,
}
use mathlib.Core.List.{append-nil}

pub length-fetch_recent_posts :
    (limit offset : ℕ) (rows : Option (List DleRow))
    → length (fetch_recent_posts limit offset rows) ≤ limit
unfolding fetch_recent_posts
length-fetch_recent_posts limit offset none = omega arith
length-fetch_recent_posts limit offset (some rows) =
    let kept = drop offset (
      order_by (descending (λ (r : DleRow). r.date))
        (keep (λ (r : DleRow). r.approve == 1) rows)) in
    omega (arith, length-map read_post (take limit kept), length-take-le limit kept)

module _ (env : Ingest) where
  count-ingest_post :
      (post : Post) (count : ℕ) (site : IngestSite)
      → (ingest_post env post (count, site)).0 ≤ count + 1
  count-ingest_post post count site = elim (Bool-cases (is_already_processed env post.id site.db)) [
    | inl old ↦ rw (ingest_post-old env post count site old) (omega arith)
    | inr new ↦
        rw (ingest_post-new env post count site new) (elim (Option-cases site.db.default_project) [
          | inl missing ↦ rw (create_cff_task-none env post site.db missing) (omega arith)
          | inr (project, found) ↦
              rw (create_cff_task-some env post site.db project found) (ground arith)
        ])
  ]

  pub count-ingest_posts :
      (posts : List Post) (s : ℕ × IngestSite) → (ingest_posts env posts s).0 ≤ s.0 + length posts
  unfolding ingest_posts
  count-ingest_posts [] s = omega arith
  count-ingest_posts (post ∷ posts) (count, site) = omega (
    arith,
    count-ingest_post post count site,
    count-ingest_posts posts (ingest_post env post (count, site)),
  )

  -- Nothing more is made for the post: it is found, or there is no project to make it in.
  abbrev pub Settled : Db → Post → Type 0
  Settled db post = (db.default_project ≡ none) ⊎ (is_already_processed env post.id db ≡ true)

  pub ingest_post_unchanged :
      (post : Post) (count : ℕ) (site : IngestSite)
      → Settled site.db post
      → ingest_post env post (count, site) ≡ (count, site)
  ingest_post_unchanged post count site (inr old) = ingest_post-old env post count site old
  ingest_post_unchanged post count site (inl missing) =
      elim (Bool-cases (is_already_processed env post.id site.db)) [
        | inl old ↦ ingest_post-old env post count site old
        | inr new ↦
            ingest_post-new env post count site new
            ∙ ap (after_create env count site) (create_cff_task-none env post site.db missing)
      ]

  pub ingest_posts_unchanged :
      (posts : List Post) (count : ℕ) (site : IngestSite)
      → All (Settled site.db) posts
      → ingest_posts env posts (count, site) ≡ (count, site)
  unfolding ingest_posts
  ingest_posts_unchanged [] count site h = refl
  ingest_posts_unchanged (post ∷ posts) count site h =
      ap (ingest_posts env posts) (ingest_post_unchanged post count site h.0)
      ∙ ingest_posts_unchanged posts count site h.1

  found_later :
      (k : ℕ) (db db' : Db) (added : List Task)
      → db'.tasks ≡ db.tasks ++ added
      → is_already_processed env k db ≡ true
      → is_already_processed env k db' ≡ true
  unfolding is_already_processed get_task_by_dle_id
  found_later k db db' added e h = rw e (fetch_one-left _ db.tasks added h)

  pub Settled-later :
      (post : Post) (s t : ℕ × IngestSite)
      → Grows env s t
      → Settled s.1.db post
      → Settled t.1.db post
  Settled-later post s t g (inl missing) = inl (g.project ∙ missing)
  Settled-later post s t g (inr old) = inr (found_later post.id s.1.db t.1.db g.added g.tasks old)

  pub found_new :
      ((c : ℕ) → env.same c c ≡ true)
      → (post : Post) (k count project : ℕ) (site : IngestSite) (rest : Text)
      → IsSlug env.source_slug
      → decimal post.id ≡ decimal k ++ rest
      → is_already_processed env k
          (after_create env count site (
            some (
              insert_task
                (env.uuid site.db.next_id)
                env.now
                project
                (dle_task env post)
                site.db))).1.db
        ≡ true
  unfolding is_already_processed get_task_by_dle_id
  found_new equal post k count project site rest h e =
      fetch_one-right (λ t. like_column env.same (dle_pattern env.source_slug k) t.legacy_add_info)
        site.db.tasks
        (new_row site.db.next_id (env.uuid site.db.next_id) project (dle_task env post) env.now)
        (like_column-legacy_info env.same equal env.trace_id env.source_slug post k rest h e)

  module _ (equal : (c : ℕ) → env.same c c ≡ true) (slug : IsSlug env.source_slug) where
    Settled-ingest_post :
        (post : Post) (count : ℕ) (site : IngestSite)
        → Settled (ingest_post env post (count, site)).1.db post
    Settled-ingest_post post count site =
        elim (Bool-cases (is_already_processed env post.id site.db)) [
          | inl old ↦ rw (ingest_post-old env post count site old) (inr old)
          | inr new ↦
              rw (ingest_post-new env post count site new)
                (elim (Option-cases site.db.default_project) [
                  | inl missing ↦ rw (create_cff_task-none env post site.db missing) (inl missing)
                  | inr (project, found) ↦
                      rw (create_cff_task-some env post site.db project found) (
                        inr (
                          found_new equal post post.id count project site [] slug
                            (sym (append-nil (decimal post.id)))))
                ])
        ]

    pub Settled-ingest_posts :
        (posts : List Post) (s : ℕ × IngestSite)
        → 0 < s.1.db.next_id
        → All (Settled (ingest_posts env posts s).1.db) posts
    unfolding ingest_posts
    Settled-ingest_posts [] s h = tt
    Settled-ingest_posts (post ∷ posts) (count, site) h =
        let g = Grows-ingest_post env post count site h in
        let s' = ingest_post env post (count, site) in
        (
          Settled-later post s' (ingest_posts env posts s')
              (Grows-ingest_posts env posts s' g.next_id) (Settled-ingest_post post count site),
          Settled-ingest_posts posts s' g.next_id,
        )
