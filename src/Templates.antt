-- ===== src/Templates.antt =====
-- prod/shared/db/repositories/template_repo.py and prod/app/api/endpoints/templates.py: the weekly
-- schedule templates and their slots. `create_template` is left out: it goes on with the uuid of the
-- new row as its id, and what MySQL finds under that is a matter of its conversions.
pub mod Laws
use content_fabric.Base.{
  ℕ, ◌+◌, Bool, true, false, not, ◌&&◌, ◌||◌, Option, none, some, List, [], ◌∷◌, ◌++◌, map, ◌==◌,
  ltb, leb, if◌then◌else◌, is_some, or_else, first_some, keep, length,
}
use content_fabric.Text.{Text}
use content_fabric.Table.{fetch_one, update_where, delete_where, count_where, has_key}
use content_fabric.Table.Order.{order_by, ascending}
use content_fabric.Users.{User}
use content_fabric.Users.Access.{Reply, ok, http_error, check_owner}

pub record Template : Type 0 where
  pub id : ℕ
  pub project_id : ℕ
  pub created_by : Option ℕ
  pub name : Text
  pub description : Option Text
  pub timezone : Text
  pub is_active : Bool

-- The time is in minutes.
pub record Slot : Type 0 where
  pub slot_id : ℕ
  pub template_id : ℕ
  pub day_of_week : ℕ
  pub time_utc : ℕ
  pub channel_id : Option ℕ
  pub media_type : Text

pub record TemplateDb : Type 0 where
  pub templates : List Template
  pub slots : List Slot
  pub next_slot_id : ℕ

abbrev pub template_key : Template → ℕ
template_key t = t.id

abbrev pub slot_key : Slot → ℕ
slot_key s = s.slot_id

abbrev pub get_template : TemplateDb → ℕ → Option Template
get_template db k = fetch_one (has_key template_key k) db.templates

pub record TemplateUpdate : Type 0 where
  pub new_name : Option Text
  pub new_description : Option Text
  pub new_timezone : Option Text
  pub new_is_active : Option Bool

unfoldable pub update_template : ℕ → TemplateUpdate → TemplateDb → Bool × TemplateDb
update_template k u db =
    if is_some u.new_name
      || is_some u.new_description
      || is_some u.new_timezone
      || is_some u.new_is_active
    then (
      ltb 0 (count_where (has_key template_key k) db.templates),
      record db {
        templates =
            update_where (has_key template_key k)
              (λ t. record t {
                name = or_else u.new_name t.name;
                description = first_some u.new_description t.description;
                timezone = or_else u.new_timezone t.timezone;
                is_active = or_else u.new_is_active t.is_active;
              })
              db.templates;
      },
    )
    else (false, db)

unfoldable pub delete_template : ℕ → TemplateDb → Bool × TemplateDb
delete_template k db = (
  ltb 0 (count_where (has_key template_key k) db.templates),
  record db {
    templates = delete_where (has_key template_key k) db.templates;
    slots = delete_where (λ s. s.template_id == k) db.slots;
  },
)

pub record SlotCreate : Type 0 where
  pub day : ℕ
  pub time : ℕ
  pub channel : Option ℕ
  pub media : Text

unfoldable pub add_slot : ℕ → SlotCreate → TemplateDb → ℕ × TemplateDb
add_slot k body db = (
  db.next_slot_id,
  record db {
    slots =
        db.slots
        ++ record {
          slot_id = db.next_slot_id;
          template_id = k;
          day_of_week = body.day;
          time_utc = body.time;
          channel_id = body.channel;
          media_type = body.media;
        }
          ∷ [];
    next_slot_id = db.next_slot_id + 1;
  },
)

-- `ORDER BY day_of_week, time_utc`
abbrev pub slot_before : Slot → Slot → Bool
slot_before a b =
    ltb a.day_of_week b.day_of_week
    || ((a.day_of_week == b.day_of_week) && leb a.time_utc b.time_utc)

unfoldable pub get_slots : TemplateDb → ℕ → List Slot
get_slots db k = order_by slot_before (keep (λ s. s.template_id == k) db.slots)

unfoldable pub delete_slot : ℕ → TemplateDb → Bool × TemplateDb
delete_slot k db = (
  ltb 0 (count_where (has_key slot_key k) db.slots),
  record db { slots = delete_where (has_key slot_key k) db.slots },
)

unfoldable pub clear_slots : ℕ → TemplateDb → ℕ × TemplateDb
clear_slots k db = (
  count_where (λ s. s.template_id == k) db.slots,
  record db { slots = delete_where (λ s. s.template_id == k) db.slots },
)

-- `_check_template_owner` in front of the rest of a handler
abbrev pub guarded {ℓ} :
    {A : Type ℓ} → User → TemplateDb → Option Template → Reply A × TemplateDb → Reply A × TemplateDb
guarded user db none rest = (http_error 404, db)
guarded user db (some t) rest = if check_owner t.created_by user then rest else (http_error 404, db)

abbrev pub response_of : TemplateDb → ℕ → Option Template → Reply (Template × List Slot)
response_of db k none = http_error 404
response_of db k (some t) = ok (t, get_slots db k)

-- `_build_response`
abbrev pub build_response : ℕ → TemplateDb → Reply (Template × List Slot)
build_response k db = response_of db k (get_template db k)

unfoldable pub get_handler : User → ℕ → TemplateDb → Reply (Template × List Slot) × TemplateDb
get_handler user k db = guarded user db (get_template db k) (build_response k db, db)

unfoldable pub update_handler :
    User → ℕ → TemplateUpdate → TemplateDb → Reply (Template × List Slot) × TemplateDb
update_handler user k u db =
    let db' = (update_template k u db).1 in
    guarded user db (get_template db k) (build_response k db', db')

unfoldable pub delete_handler : User → ℕ → TemplateDb → Reply Bool × TemplateDb
delete_handler user k db = guarded user db (get_template db k) (ok true, (delete_template k db).1)

abbrev pub slot_reply : Option Slot → Reply Slot
slot_reply none = http_error 500
slot_reply (some s) = ok s

unfoldable pub add_slot_handler : User → ℕ → SlotCreate → TemplateDb → Reply Slot × TemplateDb
unfolding add_slot get_slots
add_slot_handler user k body db =
    let (id, db') = add_slot k body db in
    guarded user db (get_template db k)
      (slot_reply (fetch_one (has_key slot_key id) (get_slots db' k)), db')

abbrev pub removed_reply : Bool × TemplateDb → Reply Bool × TemplateDb
removed_reply (true, db) = (ok true, db)
removed_reply (false, db) = (http_error 404, db)

-- The slot is looked up by its own id alone.
unfoldable pub remove_slot_handler : User → ℕ → ℕ → TemplateDb → Reply Bool × TemplateDb
remove_slot_handler user k slot db =
    guarded user db (get_template db k) (removed_reply (delete_slot slot db))

unfoldable pub list_handler : ℕ → User → TemplateDb → List (Template × List Slot)
list_handler project user db =
    map (λ t. (t, get_slots db t.id))
      (keep (λ t. check_owner t.created_by user) (keep (λ t. t.project_id == project) db.templates))
