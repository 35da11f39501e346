-- ===== src/Table/Order.antt =====
-- `ORDER BY … ASC` and `DESC`, with ties left as they stand in the table (SQL leaves them open).
use content_fabric.Base.{
  ℕ, ◌+◌, ◌≤◌, ◌≡◌, refl, ◌∙◌, inl, inr, Bool, List, [], ◌∷◌, arith, leb, if◌then◌else◌, Bool-cases,
  All, All-imp, length,
}
use content_fabric.Table.{count_where}
use native.Mathlib.Nat.{le_trans}

module _ {A : Type 0} (before : A → A → Bool) where
  abbrev pub insert_row : A → List A → List A
  insert_row r [] = r ∷ []
  insert_row r (s ∷ rows) = if before r s then r ∷ s ∷ rows else s ∷ insert_row r rows

  abbrev pub order_by : List A → List A
  order_by [] = []
  order_by (r ∷ rows) = insert_row r (order_by rows)

  count_where-insert_row :
      (p : A → Bool) (r : A) (rows : List A)
      → count_where p (insert_row r rows) ≡ count_where p (r ∷ rows)
  count_where-insert_row p r [] = refl
  count_where-insert_row p r (s ∷ rows) = ground (arith, count_where-insert_row p r rows)

  -- Ordering neither loses nor adds a row.
  pub count_where-order_by :
      (p : A → Bool) (rows : List A) → count_where p (order_by rows) ≡ count_where p rows
  count_where-order_by p [] = refl
  count_where-order_by p (r ∷ rows) =
      count_where-insert_row p r (order_by rows) ∙ ground (arith, count_where-order_by p rows)

  length-insert_row : (r : A) (rows : List A) → length (insert_row r rows) ≡ length rows + 1
  length-insert_row r [] = omega arith
  length-insert_row r (s ∷ rows) = ground (arith, length-insert_row r rows)

  pub length-order_by : (rows : List A) → length (order_by rows) ≡ length rows
  length-order_by [] = refl
  length-order_by (r ∷ rows) =
      omega (arith, length-insert_row r (order_by rows), length-order_by rows)

  pub All-insert_row {κ} :
      (P : A → Type κ) (r : A) (rows : List A) → P r → All P rows → All P (insert_row r rows)
  All-insert_row P r [] h k = (h, tt)
  All-insert_row P r (s ∷ rows) h k = ground (arith, All-insert_row P r rows h k.1)

  pub All-order_by {κ} : (P : A → Type κ) (rows : List A) → All P rows → All P (order_by rows)
  All-order_by P [] h = tt
  All-order_by P (r ∷ rows) h = All-insert_row P r (order_by rows) h.0 (All-order_by P rows h.1)

module _ {A : Type 0} (key : A → ℕ) where
  abbrev pub ascending : A → A → Bool
  ascending r s = leb (key r) (key s)

  abbrev pub descending : A → A → Bool
  descending r s = leb (key s) (key r)

  abbrev pub Ascending : List A → Type 0
  Ascending [] = Unit
  Ascending (r ∷ rows) = All (λ s. key r ≤ key s) rows × Ascending rows

  Ascending-insert_row :
      (r : A) (rows : List A) → Ascending rows → Ascending (insert_row ascending r rows)
  Ascending-insert_row r [] h = (tt, tt)
  Ascending-insert_row r (s ∷ rows) h = elim (Bool-cases (leb (key r) (key s))) [
    | inl le ↦
        let first : key r ≤ key s = ground arith in
        rw le ((first, All-imp (λ t later. le_trans first later) rows h.0), h)
    | inr gt ↦ rw gt (
      All-insert_row ascending (λ t. key s ≤ key t) r rows (ground arith) h.0,
      Ascending-insert_row r rows h.1,
    )
  ]

  pub Ascending-order_by : (rows : List A) → Ascending (order_by ascending rows)
  Ascending-order_by [] = tt
  Ascending-order_by (r ∷ rows) =
      Ascending-insert_row r (order_by ascending rows) (Ascending-order_by rows)
