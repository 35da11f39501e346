-- ===== src/Table/Subsets.antt =====
-- Keys stay distinct when rows are filtered, sorted or cut off.
use content_fabric.Base.{
  ℕ, zero, suc, ◌≡◌, ◌≢◌, refl, sym, Bool, some, List, [], ◌∷◌, Bool-cases, inl, inr, ==_refl,
  ==_iff, All, All-keep, All-take, take, keep,
}
use content_fabric.Table.{fetch_one, has_key, Distinct}
use content_fabric.Table.Order.{insert_row, order_by, All-order_by, All-insert_row}

module _ {A : Type 0} (key : A → ℕ) where
  pub Distinct-keep :
      (p : A → Bool) (rows : List A) → Distinct key rows → Distinct key (keep p rows)
  Distinct-keep p [] d = tt
  Distinct-keep p (r ∷ rows) d = elim (Bool-cases (p r)) [
    | inl hit ↦ rw hit (All-keep (λ s. key s ≢ key r) p rows d.0, Distinct-keep p rows d.1)
    | inr miss ↦ rw miss (Distinct-keep p rows d.1)
  ]

  pub Distinct-take : (n : ℕ) (rows : List A) → Distinct key rows → Distinct key (take n rows)
  Distinct-take zero rows d = tt
  Distinct-take (suc n) [] d = tt
  Distinct-take (suc n) (r ∷ rows) d =
      (All-take (λ s. key s ≢ key r) n rows d.0, Distinct-take n rows d.1)

  Distinct-insert_row :
      (before : A → A → Bool) (r : A) (rows : List A)
      → All (λ s. key s ≢ key r) rows
      → Distinct key rows
      → Distinct key (insert_row before r rows)
  Distinct-insert_row before r [] h d = (tt, tt)
  Distinct-insert_row before r (s ∷ rows) h d = elim (Bool-cases (before r s)) [
    | inl first ↦ rw first (h, d)
    | inr later ↦ rw later (
      All-insert_row before (λ x. key x ≢ key s) r rows (λ e. h.0 (sym e)) d.0,
      Distinct-insert_row before r rows h.1 d.1,
    )
  ]

  pub Distinct-order_by :
      (before : A → A → Bool) (rows : List A)
      → Distinct key rows
      → Distinct key (order_by before rows)
  Distinct-order_by before [] d = tt
  Distinct-order_by before (r ∷ rows) d =
      Distinct-insert_row before r (order_by before rows)
        (All-order_by before (λ s. key s ≢ key r) rows d.0) (Distinct-order_by before rows d.1)

  behind :
      (r : A) (rows xs : List A)
      → All (λ s. key s ≢ key r) xs
      → All (λ s. fetch_one (has_key key (key s)) rows ≡ some s) xs
      → All (λ s. fetch_one (has_key key (key s)) (r ∷ rows) ≡ some s) xs
  behind r rows [] h k = tt
  behind r rows (x ∷ xs) h k = (
    elim (Bool-cases (has_key key (key x) r)) [
      | inl hit ↦ absurd (h.0 (sym ((==_iff (key r) (key x)).0 hit)))
      | inr miss ↦ rw miss k.0
    ],
    behind r rows xs h.1 k.1,
  )

  -- In a table with distinct keys each row is found under its key.
  pub fetch_one_self :
      (rows : List A)
      → Distinct key rows
      → All (λ r. fetch_one (has_key key (key r)) rows ≡ some r) rows
  fetch_one_self [] d = tt
  fetch_one_self (r ∷ rows) d =
      (rw (==_refl (key r)) refl, behind r rows rows d.0 (fetch_one_self rows d.1))
