-- ===== src/Templates/Laws.antt =====
-- Who may change which template.
use content_fabric.Base.{
  ℕ, ◌≡◌, ◌≢◌, refl, true, Option, none, some, List, [], ◌∷◌, Bool-cases, inl, inr, ltb→lt, lt→ltb,
  arith, ltb,
}
use content_fabric.Table.{
  fetch_one, has_key, count_where, fetch_one-delete_self, fetch_one-delete_other,
}
use content_fabric.Users.{User}
use content_fabric.Users.Access.{Reply, ok, http_error, check_owner, IsStranger, stranger-owner}
use content_fabric.Templates.{
  Template, Slot, TemplateDb, slot_key, get_template, TemplateUpdate, SlotCreate, guarded,
  get_handler, update_handler, delete_handler, add_slot_handler, remove_slot_handler, delete_slot,
}

-- A template that is missing, or that is of someone else, to a user who is no admin.
abbrev pub IsHidden : User → Option Template → Type 0
IsHidden user none = Unit
IsHidden user (some t) = IsStranger user t.created_by

guarded-IsHidden :
    {A : Type 0} (user : User) (db : TemplateDb) (t : Option Template) (rest : Reply A × TemplateDb)
    → IsHidden user t
    → guarded user db t rest ≡ (http_error 404, db)
guarded-IsHidden user db none rest h = refl
guarded-IsHidden user db (some t) rest h = rw (stranger-owner user t.created_by h) refl

-- To a user who did not create a template and is no admin, every request on it is answered with
-- 404, as it is to everyone on one that does not exist, and none changes anything.
pub handlers-IsHidden :
    (user : User) (k slot : ℕ) (u : TemplateUpdate) (body : SlotCreate) (db : TemplateDb)
    → IsHidden user (get_template db k)
    → (get_handler user k db ≡ (http_error 404, db))
      × (update_handler user k u db ≡ (http_error 404, db))
      × (delete_handler user k db ≡ (http_error 404, db))
      × (add_slot_handler user k body db ≡ (http_error 404, db))
      × (remove_slot_handler user k slot db ≡ (http_error 404, db))
unfolding get_handler update_handler delete_handler add_slot_handler remove_slot_handler
handlers-IsHidden user k slot u body db h = (
  guarded-IsHidden user db (get_template db k) _ h,
  guarded-IsHidden user db (get_template db k) _ h,
  guarded-IsHidden user db (get_template db k) _ h,
  guarded-IsHidden user db (get_template db k) _ h,
  guarded-IsHidden user db (get_template db k) _ h,
)

count_where-found :
    (k : ℕ) (slots : List Slot) (s : Slot)
    → fetch_one (has_key slot_key k) slots ≡ some s
    → ltb 0 (count_where (has_key slot_key k) slots) ≡ true
count_where-found k [] s e = cc
count_where-found k (r ∷ slots) s e = elim (Bool-cases (has_key slot_key k r)) [
  | inl hit ↦ rw hit (ground arith)
  | inr miss ↦
      rw miss (lt→ltb 0 _ (omega (arith, ltb→lt 0 _ (count_where-found k slots s (rw miss at e)))))
]

-- Whoever may change one template can remove a slot of any other: the request on template `k` with
-- the id of a slot, whatever template that is in, removes the slot.
pub remove_slot_handler-unchecked :
    (user : User) (k slot : ℕ) (t : Template) (s : Slot) (db : TemplateDb)
    → get_template db k ≡ some t
    → check_owner t.created_by user ≡ true
    → fetch_one (has_key slot_key slot) db.slots ≡ some s
    → let (reply, db') = remove_slot_handler user k slot db in
      (reply ≡ ok true)
      × (fetch_one (has_key slot_key slot) db'.slots ≡ none)
      × ((j : ℕ)
          → j ≢ slot
          → fetch_one (has_key slot_key j) db'.slots ≡ fetch_one (has_key slot_key j) db.slots)
unfolding remove_slot_handler delete_slot
remove_slot_handler-unchecked user k slot t s db found mine there =
    rw (found, mine, count_where-found slot db.slots s there)
      (
        refl,
        fetch_one-delete_self slot_key slot db.slots,
        λ j ne. fetch_one-delete_other slot_key j slot db.slots ne,
      )
