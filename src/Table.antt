-- ===== src/Table.antt =====
-- A database table as the list of its rows, and the statements of the repositories under
-- prod/shared/db/repositories: SELECT one row, UPDATE and DELETE by a condition, and the row count
-- that SQLAlchemy reports (its MySQL dialects count the rows that match).
pub mod Order
pub mod Subsets
pub mod Texts
use content_fabric.Base.{
  ℕ, ◌+◌, ◌<◌, ◌≡◌, refl, sym, ◌∙◌, ap, ◌≢◌, inl, inr, Bool, true, ◌&&◌, Option, none, some, List,
  [], ◌∷◌, ◌++◌, arith, ◌==◌, ==_iff, if◌then◌else◌, Bool-cases, All, All-append,
}
use mathlib.Core.Option

module _ {A : Type 0} where
  -- `SELECT … WHERE p`, and `fetchone()`
  abbrev pub fetch_one : (A → Bool) → List A → Option A
  fetch_one p [] = none
  fetch_one p (r ∷ rows) = if p r then some r else fetch_one p rows

  -- `UPDATE … SET f WHERE p`
  abbrev pub update_where : (A → Bool) → (A → A) → List A → List A
  update_where p f [] = []
  update_where p f (r ∷ rows) = (if p r then f r else r) ∷ update_where p f rows

  -- `DELETE … WHERE p`
  abbrev pub delete_where : (A → Bool) → List A → List A
  delete_where p [] = []
  delete_where p (r ∷ rows) = if p r then delete_where p rows else r ∷ delete_where p rows

  -- the number of rows that a statement matches
  abbrev pub count_where : (A → Bool) → List A → ℕ
  count_where p [] = 0
  count_where p (r ∷ rows) = (if p r then 1 else 0) + count_where p rows

  -- How many of at most one row meet a guard.
  abbrev pub count_option : (A → Bool) → Option A → ℕ
  count_option g none = 0
  count_option g (some r) = if g r then 1 else 0

  -- A statement that matches no row writes nothing.
  pub update_where-none :
      (p : A → Bool) (f : A → A) (rows : List A)
      → count_where p rows ≡ 0
      → update_where p f rows ≡ rows
  update_where-none p f [] e = refl
  update_where-none p f (r ∷ rows) e = elim (Bool-cases (p r)) [
    | inl hit ↦ absurd (omega (arith, rw hit at e))
    | inr miss ↦
        rw miss (ap (λ rest. r ∷ rest) (update_where-none p f rows (omega (arith, rw miss at e))))
  ]

  pub All-update_where {κ} :
      (P : A → Type κ) (p : A → Bool) (f : A → A)
      → ((r : A) → P r → P (f r))
      → (rows : List A) → All P rows
      → All P (update_where p f rows)
  All-update_where P p f keep [] h = tt
  All-update_where P p f keep (r ∷ rows) h =
      ground (arith, keep r h.0, All-update_where P p f keep rows h.1)

  -- The rows that are updated are those with p.
  pub All-update_where_if {κ} :
      (P : A → Type κ) (p : A → Bool) (f : A → A)
      → ((r : A) → p r ≡ true → P r → P (f r))
      → (rows : List A) → All P rows
      → All P (update_where p f rows)
  All-update_where_if P p f keep [] h = tt
  All-update_where_if P p f keep (r ∷ rows) h = elim (Bool-cases (p r)) [
    | inl hit ↦ rw hit (keep r hit h.0, All-update_where_if P p f keep rows h.1)
    | inr miss ↦ rw miss (h.0, All-update_where_if P p f keep rows h.1)
  ]

  pub All-delete_where {κ} :
      (P : A → Type κ) (p : A → Bool) (rows : List A) → All P rows → All P (delete_where p rows)
  All-delete_where P p [] h = tt
  All-delete_where P p (r ∷ rows) h = ground (arith, All-delete_where P p rows h.1)

  pub fetch_one_All {κ} :
      (P : A → Type κ) (p : A → Bool) (rows : List A) (r : A)
      → All P rows
      → fetch_one p rows ≡ some r
      → P r
  fetch_one_All P p [] r h e = cc
  fetch_one_All P p (x ∷ rows) r h e = ground (arith, fetch_one_All P p rows r h.1)

module _ {A : Type 0} where
  -- A test that no row meets finds a new row that meets it.
  pub fetch_one-last :
      (p : A → Bool) (rows : List A) (r : A)
      → fetch_one p rows ≡ none
      → p r ≡ true
      → fetch_one p (rows ++ r ∷ []) ≡ some r
  fetch_one-last p [] r none_met met = rw met refl
  fetch_one-last p (s ∷ rows) r none_met met = elim (Bool-cases (p s)) [
    | inl hit ↦ cc
    | inr miss ↦ rw miss (fetch_one-last p rows r (rw miss at none_met) met)
  ]

module _ {A : Type 0} (key : A → ℕ) where
  -- `WHERE id = :k`
  abbrev pub has_key : ℕ → A → Bool
  has_key k r = key r == k

  pub fetch_one-key :
      (k : ℕ) (rows : List A) (r : A) → fetch_one (has_key k) rows ≡ some r → key r ≡ k
  fetch_one-key k [] r e = cc
  fetch_one-key k (s ∷ rows) r e = ground (arith, fetch_one-key k rows r)

  -- A primary key: no two rows have the same.
  abbrev pub Distinct : List A → Type 0
  Distinct [] = Unit
  Distinct (r ∷ rows) = All (λ s. key s ≢ key r) rows × Distinct rows

  pub fetch_one-update_where :
      (k : ℕ) (p : A → Bool) (f : A → A)
      → ((r : A) → key (f r) ≡ key r)
      → (rows : List A)
      → fetch_one (has_key k) (update_where p f rows)
        ≡ Option.map (λ r. if p r then f r else r) (fetch_one (has_key k) rows)
  fetch_one-update_where k p f keep [] = refl
  fetch_one-update_where k p f keep (r ∷ rows) =
      ground (arith, keep r, fetch_one-update_where k p f keep rows)

  pub fetch_one-fresh :
      (k : ℕ) (rows : List A) → All (λ s. key s ≢ k) rows → fetch_one (has_key k) rows ≡ none
  fetch_one-fresh k [] h = refl
  fetch_one-fresh k (r ∷ rows) h = ground (arith, fetch_one-fresh k rows h.1)

  pub count_where-fresh :
      (k : ℕ) (g : A → Bool) (rows : List A)
      → All (λ s. key s ≢ k) rows
      → count_where (λ r. has_key k r && g r) rows ≡ 0
  count_where-fresh k g [] h = refl
  count_where-fresh k g (r ∷ rows) h = ground (arith, count_where-fresh k g rows h.1)

  -- A statement on one id reports a row exactly when the row is there and meets its guard.
  pub count_where-fetch_one :
      (k : ℕ) (g : A → Bool) (rows : List A)
      → Distinct rows
      → count_where (λ r. has_key k r && g r) rows ≡ count_option g (fetch_one (has_key k) rows)
  count_where-fetch_one k g [] h = refl
  count_where-fetch_one k g (r ∷ rows) h = elim (Bool-cases (has_key k r)) [
    | inl hit ↦
        let same : key r ≡ k = (==_iff (key r) k).0 hit in
        rw (hit, count_where-fresh k g rows (rw same at h.0)) (omega arith)
    | inr miss ↦ rw miss (rw (count_where-fetch_one k g rows h.1) (omega arith))
  ]

  All-ne-update_where :
      (k : ℕ) (p : A → Bool) (f : A → A)
      → ((r : A) → key (f r) ≡ key r)
      → (rows : List A) → All (λ s. key s ≢ k) rows
      → All (λ s. key s ≢ k) (update_where p f rows)
  All-ne-update_where k p f keep rows h =
      All-update_where (λ s. key s ≢ k) p f (λ r ne e. ne (sym (keep r) ∙ e)) rows h

  pub Distinct-update_where :
      (p : A → Bool) (f : A → A)
      → ((r : A) → key (f r) ≡ key r)
      → (rows : List A) → Distinct rows
      → Distinct (update_where p f rows)
  Distinct-update_where p f keep [] h = tt
  Distinct-update_where p f keep (r ∷ rows) h = (
    elim (Bool-cases (p r)) [
      | inl hit ↦ rw (hit, keep r) (All-ne-update_where (key r) p f keep rows h.0)
      | inr miss ↦ rw miss (All-ne-update_where (key r) p f keep rows h.0)
    ],
    Distinct-update_where p f keep rows h.1,
  )

  pub Distinct-delete_where :
      (p : A → Bool) (rows : List A) → Distinct rows → Distinct (delete_where p rows)
  Distinct-delete_where p [] h = tt
  Distinct-delete_where p (r ∷ rows) h = elim (Bool-cases (p r)) [
    | inl hit ↦ rw hit (Distinct-delete_where p rows h.1)
    | inr miss ↦
        rw miss (All-delete_where (λ s. key s ≢ key r) p rows h.0, Distinct-delete_where p rows h.1)
  ]

  -- `AUTO_INCREMENT`: a new row whose key is above all others.
  pub Distinct-snoc :
      (n : ℕ) (rows : List A) (r : A)
      → key r ≡ n
      → All (λ s. key s < n) rows
      → Distinct rows
      → Distinct (rows ++ r ∷ [])
  Distinct-snoc n [] r e h d = (tt, tt)
  Distinct-snoc n (s ∷ rows) r e h d = (
    All-append (λ t. key t ≢ key s) rows (r ∷ []) d.0 ((λ same. omega arith), tt),
    Distinct-snoc n rows r e h.1 d.1,
  )

  pub fetch_one-snoc :
      (n : ℕ) (rows : List A) (r : A)
      → key r ≡ n
      → All (λ s. key s < n) rows
      → fetch_one (has_key n) (rows ++ r ∷ []) ≡ some r
  fetch_one-snoc n [] r e h = ground arith
  fetch_one-snoc n (s ∷ rows) r e h = ground (arith, fetch_one-snoc n rows r e h.1)

  pub fetch_one-snoc_old :
      (k : ℕ) (rows : List A) (r : A)
      → key r ≢ k
      → fetch_one (has_key k) (rows ++ r ∷ []) ≡ fetch_one (has_key k) rows
  fetch_one-snoc_old k [] r e = ground arith
  fetch_one-snoc_old k (s ∷ rows) r e = ground (arith, fetch_one-snoc_old k rows r e)

  pub fetch_one-delete_self :
      (k : ℕ) (rows : List A) → fetch_one (has_key k) (delete_where (has_key k) rows) ≡ none
  fetch_one-delete_self k [] = refl
  fetch_one-delete_self k (s ∷ rows) = ground (arith, fetch_one-delete_self k rows)

  pub fetch_one-delete_other :
      (j k : ℕ) (rows : List A)
      → j ≢ k
      → fetch_one (has_key j) (delete_where (has_key k) rows) ≡ fetch_one (has_key j) rows
  fetch_one-delete_other j k [] ne = refl
  fetch_one-delete_other j k (s ∷ rows) ne = ground (arith, fetch_one-delete_other j k rows ne)

  -- An update of one key changes the row under it, and no other.
  pub fetch_one-update_self :
      (k : ℕ) (f : A → A)
      → ((r : A) → key (f r) ≡ key r)
      → (rows : List A)
      → fetch_one (has_key k) (update_where (has_key k) f rows)
        ≡ Option.map f (fetch_one (has_key k) rows)
  fetch_one-update_self k f keep [] = refl
  fetch_one-update_self k f keep (r ∷ rows) =
      ground (arith, keep r, fetch_one-update_self k f keep rows)

  pub fetch_one-update_other :
      (j k : ℕ) (f : A → A)
      → j ≢ k
      → ((r : A) → key (f r) ≡ key r)
      → (rows : List A)
      → fetch_one (has_key j) (update_where (has_key k) f rows) ≡ fetch_one (has_key j) rows
  fetch_one-update_other j k f ne keep [] = refl
  fetch_one-update_other j k f ne keep (r ∷ rows) =
      ground (arith, keep r, fetch_one-update_other j k f ne keep rows)

  -- An update of the key of a new row.
  pub update_where-snoc :
      (n : ℕ) (f : A → A) (rows : List A) (r : A)
      → key r ≡ n
      → All (λ s. key s < n) rows
      → update_where (has_key n) f (rows ++ r ∷ []) ≡ rows ++ f r ∷ []
  update_where-snoc n f [] r e h = ground arith
  update_where-snoc n f (s ∷ rows) r e h = ground (arith, update_where-snoc n f rows r e h.1)
