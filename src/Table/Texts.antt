-- ===== src/Table/Texts.antt =====
-- A unique column of texts, and what the statements do to it.
use content_fabric.Base.{
  ℕ, ==_iff, Bool, false, none, some, some-eq, List, [], ◌∷◌, ◌≡◌, ◌≢◌, refl, sym, ap, ◌∙◌, inl,
  inr, All, All-imp, Bool-cases, arith,
}
use content_fabric.Text.{Text, text_eq, text_eq→eq, text_eq_comm}
use content_fabric.Table.{
  fetch_one, has_key, update_where, delete_where, Distinct, All-update_where, All-delete_where,
}

module _ {A : Type 0} (f : A → Text) where
  -- the texts of a unique column
  abbrev pub NoneShare : List A → Type 0
  NoneShare [] = Unit
  NoneShare (r ∷ rows) = All (λ s. text_eq (f s) (f r) ≡ false) rows × NoneShare rows

  pub NoneShare-update_where :
      (p : A → Bool) (g : A → A)
      → ((r : A) → f (g r) ≡ f r)
      → (rows : List A) → NoneShare rows
      → NoneShare (update_where p g rows)
  NoneShare-update_where p g keep [] h = tt
  NoneShare-update_where p g keep (r ∷ rows) h =
      let later =
        All-update_where (λ s. text_eq (f s) (f r) ≡ false) p g (λ s e. rw (keep s) e) rows h.0 in
      (
        elim (Bool-cases (p r)) [ inl hit ↦ rw (hit, keep r) later | inr miss ↦ rw miss later ],
        NoneShare-update_where p g keep rows h.1,
      )

  pub NoneShare-delete_where :
      (p : A → Bool) (rows : List A) → NoneShare rows → NoneShare (delete_where p rows)
  NoneShare-delete_where p [] h = tt
  NoneShare-delete_where p (r ∷ rows) h = elim (Bool-cases (p r)) [
    | inl hit ↦ rw hit (NoneShare-delete_where p rows h.1)
    | inr miss ↦ rw miss (
      All-delete_where (λ s. text_eq (f s) (f r) ≡ false) p rows h.0,
      NoneShare-delete_where p rows h.1,
    )
  ]

  module _ (key : A → ℕ) (k : ℕ) (new : Text) where
    -- Only the row of `k` may have the new text.
    abbrev pub FreeFor : A → Type 0
    FreeFor r = key r ≢ k → text_eq (f r) new ≡ false

    update_where-fresh :
        (g : A → A) (rows : List A)
        → All (λ s. key s ≢ k) rows
        → update_where (has_key key k) g rows ≡ rows
    update_where-fresh g [] h = refl
    update_where-fresh g (r ∷ rows) h = ground (arith, update_where-fresh g rows h.1)

    free_rest :
        (rows : List A)
        → All (λ s. key s ≢ k) rows
        → All FreeFor rows
        → All (λ s. text_eq (f s) new ≡ false) rows
    free_rest [] h free = tt
    free_rest (s ∷ rows) h free = (free.0 h.0, free_rest rows h.1 free.1)

    pub NoneShare-set :
        (g : A → A)
        → ((r : A) → f (g r) ≡ new)
        → (rows : List A) → Distinct key rows
        → NoneShare rows
        → All FreeFor rows
        → NoneShare (update_where (has_key key k) g rows)
    NoneShare-set g sets [] d h free = tt
    NoneShare-set g sets (r ∷ rows) d h free = elim (Bool-cases (has_key key k r)) [
      | inl hit ↦
          let same : key r ≡ k = (==_iff (key r) k).0 hit in
          let others = rw same at d.0 in
          rw (hit, update_where-fresh g rows others, sets r) (free_rest rows others free.1, h.1)
      | inr miss ↦
          let other : key r ≢ k = ground arith in
          rw miss (
            All-update_where (λ s. text_eq (f s) (f r) ≡ false) (has_key key k) g
                (λ s e. rw (sets s) (text_eq_comm new (f r) ∙ free.0 other)) rows h.0,
            NoneShare-set g sets rows d.1 h.1 free.1,
          )
    ]

    pub free_of_none :
        (rows : List A) → fetch_one (λ r. text_eq (f r) new) rows ≡ none → All FreeFor rows
    free_of_none [] e = tt
    free_of_none (r ∷ rows) e = elim (Bool-cases (text_eq (f r) new)) [
      | inl hit ↦ cc
      | inr miss ↦ ((λ _. miss), free_of_none rows (rw miss at e))
    ]

    -- The one row that has the text is that of `k`.
    pub free_of_own :
        (rows : List A) (own : A)
        → NoneShare rows
        → fetch_one (λ r. text_eq (f r) new) rows ≡ some own
        → key own ≡ k
        → All FreeFor rows
    free_of_own [] own h e same = tt
    free_of_own (r ∷ rows) own h e same = elim (Bool-cases (text_eq (f r) new)) [
      | inl hit ↦
          let whole : f r ≡ new = text_eq→eq (f r) new hit in
          let first : r ≡ own = some-eq (rw hit at e) in
          (
            (λ ne. absurd (ne (ap key first ∙ same))),
            All-imp (λ s no ne. rw (sym whole) no) rows h.0,
          )
      | inr miss ↦ ((λ _. miss), free_of_own rows own h.1 (rw miss at e) same)
    ]
