-- ===== src/Workers/Shorts/Rounds.antt =====
-- The tasks that the rounds of a shorts job leave behind, whether the loop ends or breaks off.
use content_fabric.Base.{
  ℕ, ◌+◌, ◌*◌, ◌≤◌, ◌<◌, ◌==◌, ◌≡◌, refl, sym, ap, ◌∙◌, Bool, true, false, inl, inr, ◌⊎◌, Option,
  some, List, [], ◌∷◌, ◌++◌, length, Option-cases, arith,
}
use content_fabric.Text.{Text, text}
use content_fabric.Tasks.{Task, Db, pending}
use content_fabric.Tasks.Insert.{create_task, new_row}
use content_fabric.Youtube.{Outcome, returned, raised}
use content_fabric.Workers.Shorts.{
  Highlight, ShortsTools, short_task, short_path, with_thumbnail, after_cut, cut_short, cut_shorts,
  key_error,
}
use mathlib.Core.List.{append-nil, append_assoc}

module _ (tools : ShortsTools) (channel_id : ℕ) (donor_url : Text) where
  -- the task of the highlight `k`, which waits for its time
  abbrev pub IsShortOf : ℕ → Task → Type 0
  IsShortOf k t =
      (t.status ≡ pending)
      × (t.channel_id ≡ channel_id)
      × (t.media_type ≡ text "shorts")
      × (t.source_file_path ≡ some (short_path tools channel_id donor_url k))
      × (t.scheduled_at ≡ tools.now k + 7200 * k)

  -- Tasks of different highlights from `i` up to `n`, in order.
  abbrev pub Slots : ℕ → ℕ → List Task → Type 0
  Slots i n [] = Unit
  Slots i n (t ∷ ts) = (k : ℕ) × (i ≤ k) × (k < n) × IsShortOf k t × Slots (k + 1) n ts

  Slots-earlier : (i n : ℕ) (ts : List Task) → Slots (i + 1) n ts → Slots i n ts
  Slots-earlier i n [] h = tt
  Slots-earlier i n (t ∷ ts) (k, from, to, short, rest) = (k, omega (arith, from), to, short, rest)

  -- New tasks at the end of the table, counted unless an exception left the loop.
  pub record Cuts (i n count : ℕ) (db : Db) (result : Outcome ℕ × Db) : Type 0 where
    pub added : List Task
    pub tasks : result.1.tasks ≡ db.tasks ++ added
    pub slots : Slots i n added
    pub counted :
        ((error : Text) × (result.0 ≡ raised error)) ⊎ (result.0 ≡ returned (count + length added))

  -- One round raises, skips the highlight, or adds its task.
  abbrev Round : ℕ → ℕ → Db → Outcome ℕ × Db → Type 0
  Round i count db result =
      ((error : Text) × (result ≡ (raised error, db)))
      ⊎ ((result ≡ (returned count, db))
          ⊎ ((t : Task) × IsShortOf i t
              × (result ≡ (
                returned (count + 1),
                record db { tasks = db.tasks ++ t ∷ []; next_id = db.next_id + 1 },
              ))))

  Round-with_thumbnail :
      (i : ℕ) (h : Highlight) (count : ℕ) (db : Db) (o : Outcome (Option Text))
      → 0 < db.next_id
      → Round i count db (with_thumbnail tools channel_id donor_url i h count db o)
  unfolding create_task
  Round-with_thumbnail i h count db (raised error) pos = inl (error, refl)
  Round-with_thumbnail i h count db (returned thumbnail) pos = elim (Option-cases h.title) [
    | inl untitled ↦ rw untitled (inl (key_error (text "title"), refl))
    | inr (title, titled) ↦ elim (Option-cases db.default_project) [
      | inl homeless ↦ rw (titled, homeless) (inl (_, refl))
      | inr (project, found) ↦
          let real : (db.next_id == 0) ≡ false = ground arith in
          rw (titled, found, real)
            (inr (
              inr (
                new_row db.next_id (tools.uuid db.next_id) project
                    (short_task tools channel_id donor_url i title h.reason thumbnail)
                    (tools.now i),
                (refl, refl, refl, refl, refl),
                refl,
              )))
    ]
  ]

  Round-after_cut :
      (i : ℕ) (h : Highlight) (count : ℕ) (db : Db) (o : Outcome Bool)
      → 0 < db.next_id
      → Round i count db (after_cut tools channel_id donor_url i h count db o)
  Round-after_cut i h count db (raised error) pos = inl (error, refl)
  Round-after_cut i h count db (returned false) pos = inr (inl refl)
  Round-after_cut i h count db (returned true) pos =
      Round-with_thumbnail i h count db (tools.pick_thumbnail i) pos

  Round-cut_short :
      (i : ℕ) (h : Highlight) (count : ℕ) (db : Db)
      → 0 < db.next_id
      → Round i count db (cut_short tools channel_id donor_url i h count db)
  Round-cut_short i h count db pos = elim (Option-cases h.start) [
    | inl missing ↦ rw missing (inl (key_error (text "start"), refl))
    | inr (start, there) ↦ elim (Option-cases h.stop) [
      | inl missing ↦ rw (there, missing) (inl (key_error (text "end"), refl))
      | inr (stop, also) ↦
          rw (there, also) (Round-after_cut i h count db (tools.cut_segment i start stop) pos)
    ]
  ]

  Cuts-raised :
      (i n count : ℕ) (db : Db) (hs : List Highlight) (error : Text)
      → Cuts i n count db (cut_shorts tools channel_id donor_url i hs (raised error, db))
  unfolding cut_shorts
  Cuts-raised i n count db hs error = record {
    added = [];
    tasks = sym (append-nil db.tasks);
    slots = tt;
    counted = inl (error, refl);
  }

  pub Cuts-cut_shorts :
      (i n count : ℕ) (db : Db) (hs : List Highlight)
      → n ≡ i + length hs
      → 0 < db.next_id
      → Cuts i n count db (cut_shorts tools channel_id donor_url i hs (returned count, db))
  unfolding cut_shorts
  Cuts-cut_shorts i n count db [] e pos = record {
    added = [];
    tasks = sym (append-nil db.tasks);
    slots = tt;
    counted = inr (ap returned (omega arith));
  }
  Cuts-cut_shorts i n count db (h ∷ hs) e pos = elim (Round-cut_short i h count db pos) [
    | inl (error, broken) ↦ rw (broken, cut_shorts) (Cuts-raised i n count db hs error)
    | inr (inl passed) ↦
        let rest = Cuts-cut_shorts (i + 1) n count db hs (omega (arith, e)) pos in
        rw (passed, cut_shorts)
          (record {
            added = rest.added;
            tasks = rest.tasks;
            slots = Slots-earlier i n rest.added rest.slots;
            counted = rest.counted;
          })
    | inr (inr (t, short, made)) ↦
        let db' : Db = record db { tasks = db.tasks ++ t ∷ []; next_id = db.next_id + 1 } in
        let rest =
          Cuts-cut_shorts (i + 1) n (count + 1) db' hs (omega (arith, e)) (omega (arith, pos)) in
        let more : count + 1 + length rest.added ≡ count + length (t ∷ rest.added) = omega arith in
        rw (made, cut_shorts)
          (record {
            added = t ∷ rest.added;
            tasks = rest.tasks ∙ append_assoc db.tasks (t ∷ []) rest.added;
            slots = (i, omega arith, omega (arith, e), short, rest.slots);
            counted = rw more at rest.counted;
          })
  ]
