-- ===== src/Voice/Parallel/Order.antt =====
-- The order in which the workers finish does not matter: their results are put back in the order of
-- the chunks.
use content_fabric.Base.{
  ℕ, ◌+◌, ◌≤◌, Bool, Option, some, none, ◌≢◌, ◌≡◌, refl, sym, ap, ◌∙◌, inl, inr, List, [], ◌∷◌,
  ◌++◌, map, All, All-append, All-parts, All-imp, Bool-cases, arith,
}
use content_fabric.Table.{Distinct}
use content_fabric.Table.Order.{insert_row, order_by, ascending}
use content_fabric.Text.{Text}
use content_fabric.Youtube.{Outcome, returned, raised}
use content_fabric.Voice.{Chunk, Processed}
use content_fabric.Voice.Parallel.{
  Completes, all_done, next, collected, index_of, process_chunks_parallel, process_chunk_worker,
  future_of, outcome_of,
}
use content_fabric.Voice.Parallel.Slices.{CountsFrom}

module _ {A : Type 0} (key : A → ℕ) where
  insert_row_comm :
      (r s : A) (rows : List A)
      → key r ≢ key s
      → insert_row (ascending key) r (insert_row (ascending key) s rows)
        ≡ insert_row (ascending key) s (insert_row (ascending key) r rows)
  insert_row_comm r s [] ne = ground arith
  insert_row_comm r s (t ∷ rows) ne = ground (arith, insert_row_comm r s rows ne)

  -- A row that is taken out and inserted again, past rows with other keys.
  order_by-middle :
      (before : List A) (r : A) (after : List A)
      → All (λ s. key s ≢ key r) before
      → order_by (ascending key) (before ++ r ∷ after)
        ≡ insert_row (ascending key) r (order_by (ascending key) (before ++ after))
  order_by-middle [] r after h = refl
  order_by-middle (s ∷ before) r after h =
      ap (insert_row (ascending key) s) (order_by-middle before r after h.1)
      ∙ insert_row_comm s r (order_by (ascending key) (before ++ after)) h.0

  Distinct-without :
      (before : List A) (r : A) (after : List A)
      → Distinct key (before ++ r ∷ after)
      → All (λ s. key s ≢ key r) before × Distinct key (before ++ after)
  Distinct-without [] r after d = (tt, d.1)
  Distinct-without (s ∷ before) r after d =
      let (others, rest) = Distinct-without before r after d.1 in
      let (first, last) = All-parts (λ t. key t ≢ key s) before (r ∷ after) d.0 in
      (
        ((λ e. last.0 (sym e)), others),
        (All-append (λ t. key t ≢ key s) before after first last.1, rest),
      )

  insert_row-first :
      (r : A) (rows : List A)
      → All (λ s. key r ≤ key s) rows
      → insert_row (ascending key) r rows ≡ r ∷ rows
  insert_row-first r [] h = refl
  insert_row-first r (s ∷ rows) h = ground (arith, h.0)

module _ {B : Type 0} where
  collected-append :
      (fs gs : List (Option (Processed B))) → collected (fs ++ gs) ≡ collected fs ++ collected gs
  collected-append [] gs = refl
  collected-append (none ∷ fs) gs = collected-append fs gs
  collected-append (some p ∷ fs) gs = ap (λ ps. p ∷ ps) (collected-append fs gs)

  -- Sorting forgets the order in which futures completed.
  order_by-completed :
      {pending later : List (Option (Processed B))}
      → Completes pending later
      → Distinct index_of (collected pending)
      → order_by (ascending index_of) (collected pending)
        ≡ order_by (ascending index_of) (collected later)
  order_by-completed all_done d = refl
  order_by-completed (next before none after e rest) d =
      let e' =
        ap collected e
        ∙ collected-append before (none ∷ after)
        ∙ sym (collected-append before after) in
      ap (order_by (ascending index_of)) e' ∙ order_by-completed rest (rw e' at d)
  order_by-completed (next before (some p) after e rest) d =
      let e' = ap collected e ∙ collected-append before (some p ∷ after) in
      let (others, d') =
        Distinct-without index_of (collected before) p (collected after) (rw e' at d) in
      ap (order_by (ascending index_of)) e'
      ∙ order_by-middle index_of (collected before) p (collected after) others
      ∙ ap (λ ps. insert_row (ascending index_of) p (order_by (ascending index_of) ps))
          (sym (collected-append before after))
      ∙ ap (insert_row (ascending index_of) p)
          (order_by-completed rest (rw (sym (collected-append before after)) at d'))

  module _ {A : Type 0} (output_dir : Text) (convert_voice : Chunk → List A → Outcome B)
      (died : Chunk → Bool) where
    -- what each chunk becomes, in the order of the chunks
    abbrev pub results : List (Chunk × List A) → List (Processed B)
    results chunks = collected (map (future_of output_dir convert_voice died) chunks)

    index-outcome_of :
        (c : Chunk) (o : Outcome B)
        → index_of (outcome_of {A = A} output_dir convert_voice c o) ≡ c.index
    index-outcome_of c (returned b) = refl
    index-outcome_of c (raised error) = refl

    index-process_chunk_worker :
        (c : Chunk) (piece : List A)
        → index_of (process_chunk_worker output_dir convert_voice (c, piece)) ≡ c.index
    index-process_chunk_worker c piece = index-outcome_of c (convert_voice c piece)

    results-from :
        (i : ℕ) (chunks : List (Chunk × List A))
        → CountsFrom i chunks
        → All (λ p. i ≤ index_of p) (results chunks)
    results-from i [] h = tt
    results-from i ((c, piece) ∷ chunks) (e, h) =
        let later : All (λ p. i ≤ index_of p) (results chunks) =
          All-imp (λ p le. omega (arith, le)) (results chunks) (results-from (i + 1) chunks h) in
        elim (Bool-cases (died c)) [
          | inl lost ↦ rw lost later
          | inr finished ↦ rw finished (omega (arith, index-process_chunk_worker c piece, e), later)
        ]

    results-Distinct :
        (i : ℕ) (chunks : List (Chunk × List A))
        → CountsFrom i chunks
        → Distinct index_of (results chunks)
    results-Distinct i [] h = tt
    results-Distinct i ((c, piece) ∷ chunks) (e, h) = elim (Bool-cases (died c)) [
      | inl lost ↦ rw lost (results-Distinct (i + 1) chunks h)
      | inr finished ↦ rw finished (
        All-imp (λ p le. omega (arith, le, index-process_chunk_worker c piece, e)) (results chunks)
            (results-from (i + 1) chunks h),
        results-Distinct (i + 1) chunks h,
      )
    ]

    order_by-results :
        (i : ℕ) (chunks : List (Chunk × List A))
        → CountsFrom i chunks
        → order_by (ascending index_of) (results chunks) ≡ results chunks
    order_by-results i [] h = refl
    order_by-results i ((c, piece) ∷ chunks) (e, h) = elim (Bool-cases (died c)) [
      | inl lost ↦ rw lost (order_by-results (i + 1) chunks h)
      | inr finished ↦
          let p = process_chunk_worker output_dir convert_voice (c, piece) in
          let below =
            All-imp (λ q le. omega (arith, le, index-process_chunk_worker c piece, e))
              (results chunks) (results-from (i + 1) chunks h) in
          rw finished (
            ap (insert_row (ascending index_of) p) (order_by-results (i + 1) chunks h)
            ∙ insert_row-first index_of p (results chunks) below)
    ]

    -- In whatever order the futures of numbered chunks complete, the result lists, in the order of
    -- the chunks, what each chunk became, those of the processes that died left out.
    pub process_chunks_parallel-any_order :
        (chunks : List (Chunk × List A)) (later : List (Option (Processed B)))
        → CountsFrom 0 chunks
        → Completes (map (future_of output_dir convert_voice died) chunks) later
        → process_chunks_parallel later ≡ results chunks
    unfolding process_chunks_parallel
    process_chunks_parallel-any_order chunks later h c =
        sym (order_by-completed c (results-Distinct 0 chunks h)) ∙ order_by-results 0 chunks h
