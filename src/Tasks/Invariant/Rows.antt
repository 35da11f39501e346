-- ===== src/Tasks/Invariant/Rows.antt =====
-- The generic statements on tasks keep the invariant and every task's identity.
use content_fabric.Base.{
  ℕ, ◌+◌, ◌<◌, ◌≡◌, refl, true, List, sym, ◌∙◌, inl, inr, Bool, Option, none, some, [], ◌∷◌, arith,
  if◌then◌else◌, All-imp, All-append, Bool-cases, some-eq,
}
use content_fabric.Text.{Text}
use content_fabric.Table.{
  fetch_one, update_where, delete_where, has_key, All-update_where, All-update_where_if,
  All-delete_where, Distinct-update_where, Distinct-delete_where, Distinct-snoc,
  fetch_one-update_where, fetch_one-snoc_old, fetch_one-delete_self, fetch_one-delete_other,
}
use content_fabric.Tasks.{Task, Db}
use content_fabric.Tasks.Repo.{NewTask, new_row, insert_task}
use content_fabric.Tasks.Invariant.{key, IsStamped, IsValidBut, Kept}
use mathlib.Core.Option
use mathlib.Core.Path.{subst}
use native.Mathlib.Decide.{ℕ_discrete}

pub Kept-refl : (t : Task) → Kept t t
Kept-refl t = ground arith

pub Kept-trans : {t u v : Task} → Kept t u → Kept u v → Kept t v
Kept-trans a b = ground arith

-- An update that keeps each row's identity, and the stamp of a completed one.
pub record IsRowUpdate (f : Task → Task) : Type 0 where
  pub keeps : (t : Task) → Kept t (f t)
  pub stamps : (ks : List ℕ) (t : Task) → IsStamped ks t → IsStamped ks (f t)

module _ (ks : List ℕ) (f : Task → Task) (keeps : (t : Task) → Kept t (f t)) where
  pub update_where-IsValid :
      (p : Task → Bool)
      → ((t : Task) → p t ≡ true → IsStamped ks t → IsStamped ks (f t))
      → (db : Db) → IsValidBut ks db
      → IsValidBut ks (record db { tasks = update_where p f db.tasks })
  update_where-IsValid p stamps db v = record {
    distinct = Distinct-update_where key p f (λ t. (keeps t).same_id) db.tasks v.distinct;
    below =
        All-update_where (λ t. t.id < db.next_id) p f (λ t h. rw ((keeps t).same_id) h) db.tasks
          v.below;
    stamped = All-update_where_if (IsStamped ks) p f stamps db.tasks v.stamped;
  }

-- Task `k` began as `t`: it is still that task wherever it is found, and its id is not given out
-- again.
pub record Tracks (k : ℕ) (t : Task) (db : Db) : Type 0 where
  pub used : k < db.next_id
  pub kept : (u : Task) → fetch_one (has_key key k) db.tasks ≡ some u → Kept t u

module _ (f : Task → Task) (keeps : (t : Task) → Kept t (f t)) (k : ℕ) (t : Task) where
  updated-Kept :
      (p : Task → Bool) (found : Option Task) (u : Task)
      → ((s : Task) → found ≡ some s → Kept t s)
      → Option.map (λ r. if p r then f r else r) found ≡ some u
      → Kept t u
  updated-Kept p none u h e = cc
  updated-Kept p (some s) u h e = elim (Bool-cases (p s)) [
    | inl hit ↦ subst (Kept t) (some-eq (rw hit at e)) (Kept-trans (h s refl) (keeps s))
    | inr miss ↦ subst (Kept t) (some-eq (rw miss at e)) (h s refl)
  ]

  pub update_where-Tracks :
      (p : Task → Bool) (db : Db)
      → Tracks k t db
      → Tracks k t (record db { tasks = update_where p f db.tasks })
  update_where-Tracks p db h = record {
    used = h.used;
    kept = λ u e.
        updated-Kept p (fetch_one (has_key key k) db.tasks) u h.kept
          (sym (fetch_one-update_where key k p f (λ s. (keeps s).same_id) db.tasks) ∙ e);
  }

module _ (uuid : Text) (now project : ℕ) (new : NewTask) where
  pub insert_task-IsValid :
      (ks : List ℕ) (db : Db)
      → IsValidBut ks db
      → IsValidBut ks (insert_task uuid now project new db).1
  insert_task-IsValid ks db v =
      let row = new_row db.next_id uuid project new now in
      record {
        distinct = Distinct-snoc key db.next_id db.tasks row refl v.below v.distinct;
        below =
            All-append (λ s. s.id < db.next_id + 1) db.tasks (row ∷ [])
              (All-imp (λ s h. omega arith) db.tasks v.below) (omega arith, tt);
        stamped = All-append (IsStamped ks) db.tasks (row ∷ []) v.stamped ((λ e free. cc), tt);
      }

  pub insert_task-Tracks :
      (k : ℕ) (t : Task) (db : Db)
      → Tracks k t db
      → Tracks k t (insert_task uuid now project new db).1
  insert_task-Tracks k t db h = record {
    used = omega (arith, h.used);
    kept = λ u e. h.kept u (
        sym (
          fetch_one-snoc_old key k db.tasks (new_row db.next_id uuid project new now)
            (λ same. omega (arith, h.used)))
        ∙ e);
  }

pub delete-IsValid :
    (ks : List ℕ) (p : Task → Bool) (db : Db)
    → IsValidBut ks db
    → IsValidBut ks (record db { tasks = delete_where p db.tasks })
delete-IsValid ks p db v = record {
  distinct = Distinct-delete_where key p db.tasks v.distinct;
  below = All-delete_where (λ t. t.id < db.next_id) p db.tasks v.below;
  stamped = All-delete_where (IsStamped ks) p db.tasks v.stamped;
}

pub delete-Tracks :
    (k : ℕ) (t : Task) (j : ℕ) (db : Db)
    → Tracks k t db
    → Tracks k t (record db { tasks = delete_where (has_key key j) db.tasks })
delete-Tracks k t j db h = record {
  used = h.used;
  kept = λ u e. elim (ℕ_discrete k j) [
    | yes same ↦ cc (fetch_one-delete_self key k db.tasks, same)
    | no other ↦ h.kept u (sym (fetch_one-delete_other key k j db.tasks other) ∙ e)
  ];
}
