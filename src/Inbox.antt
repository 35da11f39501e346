-- ===== src/Inbox.antt =====
-- prod/shared/db/repositories/notification_repo.py: the notifications of all users in one table. A
-- user sees and changes those of their own alone.
pub mod Laws
use content_fabric.Base.{
  ℕ, ◌+◌, ◌==◌, ◌&&◌, ◌||◌, Bool, false, true, not, Option, List, [], ◌∷◌, ◌++◌, keep, take, drop,
  length, if◌then◌else◌,
}
use content_fabric.Text.{Text, text}
use content_fabric.Table.{update_where, delete_where, count_where, has_key}
use content_fabric.Table.Order.{order_by, descending}
use content_fabric.Users.{User, status_admin, status_active}

pub record Notice : Type 0 where
  pub id : ℕ
  pub user_id : ℕ
  pub type : Text
  pub title : Text
  pub message : Option Text
  pub is_read : Bool
  pub created_at : ℕ

pub record InboxDb : Type 0 where
  pub notices : List Notice
  pub next_id : ℕ

abbrev pub notice_id : Notice → ℕ
notice_id n = n.id

-- `WHERE user_id = :uid`
abbrev pub is_of : ℕ → Notice → Bool
is_of user_id n = n.user_id == user_id

unfoldable pub get_notifications : ℕ → ℕ → ℕ → InboxDb → List Notice
get_notifications user_id limit offset db = take limit (
    drop offset
      (order_by (descending (λ (n : Notice). n.created_at)) (keep (is_of user_id) db.notices)))

abbrev pub is_unread_of : ℕ → Notice → Bool
is_unread_of user_id n = is_of user_id n && not n.is_read

unfoldable pub count_unread : ℕ → InboxDb → ℕ
count_unread user_id db = count_where (is_unread_of user_id) db.notices

abbrev pub read_notice : Notice → Notice
read_notice n = record n { is_read = true }

unfoldable pub mark_read : ℕ → ℕ → InboxDb → InboxDb
mark_read k user_id db = record db {
  notices = update_where (λ n. has_key notice_id k n && is_of user_id n) read_notice db.notices;
}

unfoldable pub mark_all_read : ℕ → InboxDb → InboxDb
mark_all_read user_id db = record db {
  notices = update_where (is_unread_of user_id) read_notice db.notices;
}

abbrev pub new_notice : ℕ → ℕ → ℕ → Text → Text → Option Text → Notice
new_notice id now user_id type title message = record {
  id = id;
  user_id = user_id;
  type = type;
  title = title;
  message = message;
  is_read = false;
  created_at = now;
}

-- `create`
unfoldable pub create_notice : ℕ → ℕ → Text → Text → Option Text → InboxDb → ℕ × InboxDb
create_notice now user_id type title message db = (
  db.next_id,
  record {
    notices = db.notices ++ new_notice db.next_id now user_id type title message ∷ [];
    next_id = db.next_id + 1;
  },
)

-- `WHERE status IN (1, 10)`
abbrev pub is_addressed : User → Bool
is_addressed u = (u.status == status_admin) || (u.status == status_active)

-- the rows that `INSERT … SELECT` adds
unfoldable pub notices_for : ℕ → ℕ → Text → Option Text → List User → List Notice
notices_for id now title message [] = []
notices_for id now title message (u ∷ users) =
    if is_addressed u
    then new_notice id now u.id (text "broadcast") title message
      ∷ notices_for (id + 1) now title message users
    else notices_for id now title message users

unfoldable pub broadcast : ℕ → Text → Option Text → List User → InboxDb → ℕ × InboxDb
broadcast now title message users db =
    let added = notices_for db.next_id now title message users in
    (length added, record { notices = db.notices ++ added; next_id = db.next_id + length added })

-- `delete`
unfoldable pub delete_notice : ℕ → ℕ → InboxDb → InboxDb
delete_notice k user_id db = record db {
  notices = delete_where (λ n. has_key notice_id k n && is_of user_id n) db.notices;
}
