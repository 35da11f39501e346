-- ===== src/Workers/Sora/Laws.antt =====
-- Which posts of the feed a Sora run queues, and which ids it marks.
use content_fabric.Base.{
  ℕ, zero, suc, ◌+◌, ◌-◌, ◌≤◌, ◌<◌, ◌≡◌, refl, sym, ap, ◌∙◌, Bool, true, false, Option, none, some,
  List, [], ◌∷◌, ◌++◌, arith, leb, ltb, Bool-cases, Option-cases, inl, inr, length, take,
  length-take-le, map, ◌⊎◌, length-append, if◌then◌else◌,
}
use mathlib.Core.List.{append_assoc, append-nil, map-append}
use content_fabric.Text.{Text, text_mem, is_empty}
use content_fabric.Queue.{Job, shorts, SoraPayload}
use content_fabric.Workers.Sora.{Post, SoraRun, after_download, sora_post, sora_posts, run_sora_job}

-- The ids that are marked one after the other.
abbrev pub mark_all : List (Text × Text) → List Text → List Text
mark_all [] used = used
mark_all ((id, path) ∷ picks) used = mark_all picks (if text_mem id used then used else id ∷ used)

mark_all-append :
    (ps qs : List (Text × Text)) (used : List Text)
    → mark_all (ps ++ qs) used ≡ mark_all qs (mark_all ps used)
mark_all-append [] qs used = refl
mark_all-append ((id, path) ∷ ps) qs used =
    mark_all-append ps qs (if text_mem id used then used else id ∷ used)

-- A job for one short from a file.
abbrev pub expected_job : SoraPayload → Text × Text → Job
expected_job payload p = shorts (record {
  shorts_channel_id = payload.sora_channel_id;
  donor_video_url = some p.1;
  highlights = 1;
})

module _ (redis : Job → Bool) (download : Text → Option Text) (payload : SoraPayload)
    (used : List Text) where
  -- The id of a post and the path of its video, if Redis takes a job with that path.
  abbrev pub taken_pick : Text → Option Text → List (Text × Text)
  taken_pick id none = []
  taken_pick id (some path) =
      if redis (expected_job payload (id, path)) then (id, path) ∷ [] else []

  -- Of a post with an id, a URL and a number of views.
  abbrev pub pick : Option Text → Option Text → ℕ → List (Text × Text)
  pick none url views = []
  pick (some id) none views = []
  pick (some id) (some url) views =
      if is_empty id
      then []
      else if is_empty url
      then []
      else if text_mem id used
      then []
      else if ltb views payload.min_views
      then []
      else taken_pick id (download url)

  -- The ids and files of the posts of a feed that can be queued, in order: those with an id that was
  -- not used and a URL, with enough views, whose video is downloaded and whose job Redis takes.
  abbrev pub picks : List Post → List (Text × Text)
  picks [] = []
  picks (post ∷ posts) = pick post.post_id post.video_url post.views ++ picks posts

  abbrev pub IsQueued : List (Text × Text) → SoraRun → SoraRun → Type 0
  IsQueued ps run run' =
      (run'.queued ≡ run.queued + length ps)
      × (run'.jobs ≡ run.jobs ++ map (expected_job payload) ps)
      × (run'.used ≡ mark_all ps run.used)

  IsQueued-trans :
      (ps qs : List (Text × Text)) (r s t : SoraRun)
      → IsQueued ps r s
      → IsQueued qs s t
      → IsQueued (ps ++ qs) r t
  IsQueued-trans ps qs r s t g h = (
    omega (arith, length-append ps qs, g.0, h.0),
    h.1
        ∙ ap (λ l. l ++ map (expected_job payload) qs) g.1
        ∙ append_assoc r.jobs (map (expected_job payload) ps) (map (expected_job payload) qs)
        ∙ ap (λ l. r.jobs ++ l) (sym (map-append (expected_job payload) ps qs)),
    h.2 ∙ ap (mark_all qs) g.2 ∙ sym (mark_all-append ps qs r.used),
  )

  -- A post is passed over, or it is queued and marked.
  abbrev Queues : List (Text × Text) → SoraRun → SoraRun → Type 0
  Queues ps run run' =
      ((ps ≡ []) × IsQueued [] run run')
      ⊎ ((x : Text × Text) × (ps ≡ x ∷ []) × IsQueued (x ∷ []) run run')

  passed_over : (run : SoraRun) → IsQueued [] run run
  passed_over run = (omega arith, sym (append-nil run.jobs), refl)

  after_download-Queues :
      (post : Post) (id : Text) (run : SoraRun) (path : Option Text)
      → post.post_id ≡ some id
      → Queues (taken_pick id path) run (after_download redis payload post run path)
  after_download-Queues post id run none e = inl (refl, passed_over run)
  after_download-Queues post id run (some path) e =
      elim (Bool-cases (redis (expected_job payload (id, path)))) [
        | inl taken ↦ rw (taken, e) (inr ((id, path), refl, (omega arith, refl, refl)))
        | inr lost ↦ rw lost (inl (refl, passed_over run))
      ]

  sora_post-Queues :
      (post : Post) (run : SoraRun)
      → Queues
          (pick post.post_id post.video_url post.views)
          run
          (sora_post redis download payload used post run)
  sora_post-Queues post run = elim (Option-cases post.post_id) [
    | inl none_id ↦ rw none_id (inl (refl, passed_over run))
    | inr (id, has_id) ↦ elim (Bool-cases (is_empty id)) [
      | inl blank ↦ elim (Option-cases post.video_url) [
        | inl none_url ↦ rw (has_id, none_url, blank) (inl (refl, passed_over run))
        | inr (url, has_url) ↦ rw (has_id, has_url, blank) (inl (refl, passed_over run))
      ]
      | inr named ↦ elim (Option-cases post.video_url) [
        | inl none_url ↦ rw (has_id, none_url, named) (inl (refl, passed_over run))
        | inr (url, has_url) ↦ elim (Bool-cases (is_empty url)) [
          | inl blank ↦ rw (has_id, has_url, named, blank) (inl (refl, passed_over run))
          | inr there ↦ elim (Bool-cases (text_mem id used)) [
            | inl old ↦ rw (has_id, has_url, named, there, old) (inl (refl, passed_over run))
            | inr new ↦ elim (Bool-cases (ltb post.views payload.min_views)) [
              | inl few ↦
                  let below : leb payload.min_views post.views ≡ false = ground arith in
                  rw (has_id, has_url, named, there, new, few, below) (inl (refl, passed_over run))
              | inr many ↦
                  let enough : leb payload.min_views post.views ≡ true = ground arith in
                  rw (has_id, has_url, named, there, new, many, enough)
                    (after_download-Queues
                      (record { post_id = some id; video_url = some url; views = post.views }) id
                      (record run { new_count = run.new_count + 1 }) (download url) refl)
            ]
          ]
        ]
      ]
    ]
  ]

  Queues-take :
      (limit : ℕ) (ps more : List (Text × Text)) (r s t : SoraRun)
      → leb limit r.queued ≡ false
      → Queues ps r s
      → IsQueued (take (limit - s.queued) more) s t
      → IsQueued (take (limit - r.queued) (ps ++ more)) r t
  Queues-take limit ps more r s t room (inl (nothing, same)) h =
      let e : limit - s.queued ≡ limit - r.queued = omega (arith, same.0) in
      rw nothing (IsQueued-trans [] (take (limit - r.queued) more) r s t same (rw e at h))
  Queues-take limit ps more r s t room (inr (x, one, queued)) h =
      let below : r.queued < limit = ground arith in
      let e : limit - r.queued ≡ suc (limit - s.queued) = omega (arith, queued.0) in
      rw (one, e) (IsQueued-trans (x ∷ []) (take (limit - s.queued) more) r s t queued h)

  take-nil : (n : ℕ) → take n (picks []) ≡ []
  take-nil zero = refl
  take-nil (suc n) = refl

  sora_posts-picks :
      (posts : List Post) (run : SoraRun)
      → IsQueued
          (take (payload.posts - run.queued) (picks posts))
          run
          (sora_posts redis download payload used posts run)
  unfolding sora_posts
  sora_posts-picks [] run = rw (take-nil (payload.posts - run.queued)) (passed_over run)
  sora_posts-picks (post ∷ posts) run = elim (Bool-cases (leb payload.posts run.queued)) [
    | inl full ↦
        let none_left : payload.posts - run.queued ≡ 0 = ground arith in
        rw (full, none_left) (passed_over run)
    | inr room ↦
        let next = sora_post redis download payload used post run in
        rw room (
          Queues-take payload.posts (pick post.post_id post.video_url post.views) (picks posts) run
            next (sora_posts redis download payload used posts next) room
            (sora_post-Queues post run) (sora_posts-picks posts next))
  ]

-- A Sora run queues a job for each of the first posts of the feed, up to its limit, that have an id
-- which was not used before the run and a URL, have enough views, are downloaded and are taken by
-- Redis: in the order of the feed, for the channel of the run and with the file of the post. It
-- marks just their ids, each one once, and counts the jobs.
pub run_sora_job_lem :
    (redis : Job → Bool) (download : Text → Option Text) (payload : SoraPayload) (feed : List Post)
    (used : List Text) (jobs : List Job)
    → let run = run_sora_job redis download payload feed used jobs in
      let ps = take payload.posts (picks redis download payload used feed) in
      (run.jobs ≡ jobs ++ map (expected_job payload) ps)
      × (run.used ≡ mark_all ps used)
      × (run.queued ≡ length ps)
      × (run.queued ≤ payload.posts)
unfolding run_sora_job
run_sora_job_lem redis download payload feed used jobs =
    let start : SoraRun = record { new_count = 0; queued = 0; used = used; jobs = jobs } in
    let h = sora_posts-picks redis download payload used feed start in
    let all : payload.posts - 0 ≡ payload.posts = omega arith in
    let h' = rw all at h in
    (
      h'.1,
      h'.2,
      omega (arith, h'.0),
      omega (arith, h'.0, length-take-le payload.posts (picks redis download payload used feed)),
    )
