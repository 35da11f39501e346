-- ===== src/Inbox/Laws.antt =====
-- Users do not touch each other's notifications, and a broadcast reaches each addressed user once.
use content_fabric.Base.{
  ℕ, ◌+◌, ◌==◌, ◌&&◌, Bool, false, true, Option, ◌≡◌, refl, ap, ◌∙◌, inl, inr, List, [], ◌∷◌, ◌++◌,
  keep, keep-append, length, All, any_of, Bool-cases, arith,
}
use content_fabric.Text.{Text}
use content_fabric.Table.{
  update_where, delete_where, count_where, has_key, Distinct, fetch_one, count_option,
  count_where-fetch_one,
}
use content_fabric.Users.{User, user_key}
use mathlib.Core.List.{append-nil}
use content_fabric.Inbox.{
  Notice, InboxDb, is_of, is_unread_of, count_unread, read_notice, mark_read, mark_all_read,
  create_notice, is_addressed, notices_for, broadcast, delete_notice,
}

-- the calls that write
pub data Request : Type 0 where
  mark : ℕ → ℕ → Request
  mark_all : ℕ → Request
  create : ℕ → ℕ → Text → Text → Option Text → Request
  send_all : ℕ → Text → Option Text → List User → Request
  delete : ℕ → ℕ → Request

unfoldable pub perform : Request → InboxDb → InboxDb
perform (mark k user_id) db = mark_read k user_id db
perform (mark_all user_id) db = mark_all_read user_id db
perform (create now user_id type title message) db =
    (create_notice now user_id type title message db).1
perform (send_all now title message users) db = (broadcast now title message users db).1
perform (delete k user_id) db = delete_notice k user_id db

unfoldable pub perform_all : List Request → InboxDb → InboxDb
perform_all [] db = db
perform_all (r ∷ rs) db = perform_all rs (perform r db)

abbrev pub addresses : ℕ → User → Bool
addresses user_id u = has_key user_key user_id u && is_addressed u

-- Whether a request is one of the user, or is sent to them.
abbrev pub concerns : ℕ → Request → Bool
concerns v (mark k user_id) = user_id == v
concerns v (mark_all user_id) = user_id == v
concerns v (create now user_id type title message) = user_id == v
concerns v (send_all now title message users) = any_of (addresses v) users
concerns v (delete k user_id) = user_id == v

module _ (v : ℕ) where
  keep-update_other :
      (p : Notice → Bool)
      → ((n : Notice) → is_of v n ≡ true → p n ≡ false)
      → (ns : List Notice) → keep (is_of v) (update_where p read_notice ns) ≡ keep (is_of v) ns
  keep-update_other p h [] = refl
  keep-update_other p h (n ∷ ns) = elim (Bool-cases (is_of v n)) [
    | inl own ↦ rw (h n own, own) (ap (λ ms. n ∷ ms) (keep-update_other p h ns))
    | inr other ↦ elim (Bool-cases (p n)) [
      | inl hit ↦ rw (hit, other) (keep-update_other p h ns)
      | inr miss ↦ rw (miss, other) (keep-update_other p h ns)
    ]
  ]

  keep-delete_other :
      (p : Notice → Bool)
      → ((n : Notice) → is_of v n ≡ true → p n ≡ false)
      → (ns : List Notice) → keep (is_of v) (delete_where p ns) ≡ keep (is_of v) ns
  keep-delete_other p h [] = refl
  keep-delete_other p h (n ∷ ns) = elim (Bool-cases (is_of v n)) [
    | inl own ↦ rw (h n own, own) (ap (λ ms. n ∷ ms) (keep-delete_other p h ns))
    | inr other ↦ elim (Bool-cases (p n)) [
      | inl hit ↦ rw (hit, other) (keep-delete_other p h ns)
      | inr miss ↦ rw (miss, other) (keep-delete_other p h ns)
    ]
  ]

  keep-append_other :
      (ns added : List Notice)
      → keep (is_of v) added ≡ []
      → keep (is_of v) (ns ++ added) ≡ keep (is_of v) ns
  keep-append_other ns added e =
      keep-append (is_of v) ns added
      ∙ ap (λ ms. keep (is_of v) ns ++ ms) e
      ∙ append-nil (keep (is_of v) ns)

  keep-notices_for :
      (id now : ℕ) (title : Text) (message : Option Text) (users : List User)
      → any_of (addresses v) users ≡ false
      → keep (is_of v) (notices_for id now title message users) ≡ []
  unfolding notices_for
  keep-notices_for id now title message [] h = refl
  keep-notices_for id now title message (u ∷ users) h = ground (
    arith,
    keep-notices_for id now title message users,
    keep-notices_for (id + 1) now title message users,
  )

  perform-keeps :
      (r : Request) (db : InboxDb)
      → concerns v r ≡ false
      → keep (is_of v) (perform r db).notices ≡ keep (is_of v) db.notices
  unfolding perform mark_read mark_all_read create_notice broadcast delete_notice
  perform-keeps (mark k user_id) db h = keep-update_other _ (λ n own. ground arith) db.notices
  perform-keeps (mark_all user_id) db h = keep-update_other _ (λ n own. ground arith) db.notices
  perform-keeps (create now user_id type title message) db h =
      keep-append_other db.notices _ (rw h refl)
  perform-keeps (send_all now title message users) db h =
      keep-append_other db.notices _ (keep-notices_for db.next_id now title message users h)
  perform-keeps (delete k user_id) db h = keep-delete_other _ (λ n own. ground arith) db.notices

  -- No sequence of requests of others, broadcasts that do not address the user included, changes a
  -- notification of the user, adds one or removes one.
  pub perform_all-keeps :
      (rs : List Request) (db : InboxDb)
      → All (λ r. concerns v r ≡ false) rs
      → keep (is_of v) (perform_all rs db).notices ≡ keep (is_of v) db.notices
  unfolding perform_all
  perform_all-keeps [] db h = refl
  perform_all-keeps (r ∷ rs) db h = perform_all-keeps rs (perform r db) h.1 ∙ perform-keeps r db h.0

count_where-append :
    {A : Type 0} (p : A → Bool) (rows added : List A)
    → count_where p (rows ++ added) ≡ count_where p rows + count_where p added
count_where-append p [] added = omega arith
count_where-append p (r ∷ rows) added = omega (arith, count_where-append p rows added)

unread-notices_for :
    (v id now : ℕ) (title : Text) (message : Option Text) (users : List User)
    → count_where (is_unread_of v) (notices_for id now title message users)
      ≡ count_where (addresses v) users
unfolding notices_for
unread-notices_for v id now title message [] = refl
unread-notices_for v id now title message (u ∷ users) = elim (Bool-cases (is_addressed u)) [
  | inl addressed ↦
      rw addressed (ground (arith, unread-notices_for v (id + 1) now title message users))
  | inr passed ↦ rw passed (ground (arith, unread-notices_for v id now title message users))
]

length-notices_for :
    (id now : ℕ) (title : Text) (message : Option Text) (users : List User)
    → length (notices_for id now title message users) ≡ count_where is_addressed users
unfolding notices_for
length-notices_for id now title message [] = refl
length-notices_for id now title message (u ∷ users) = ground (
  arith,
  length-notices_for id now title message users,
  length-notices_for (id + 1) now title message users,
)

unread-read :
    (v : ℕ) (ns : List Notice)
    → count_where (is_unread_of v) (update_where (is_unread_of v) read_notice ns) ≡ 0
unread-read v [] = refl
unread-read v (n ∷ ns) = elim (Bool-cases (is_unread_of v n)) [
  | inl unread ↦ rw unread (ground (arith, unread-read v ns))
  | inr other ↦ rw (other, other) (omega (arith, unread-read v ns))
]

-- A broadcast counts the users it addresses, those who are active or administrators; each of them
-- has one unread notification more, and every other user as many as before; and a user who reads
-- all has none.
pub broadcast-count_unread :
    (v now : ℕ) (title : Text) (message : Option Text) (users : List User) (db : InboxDb)
    → Distinct user_key users
    → let (count, db') = broadcast now title message users db in
      (count ≡ count_where is_addressed users)
      × (count_unread v db'
          ≡ count_unread v db + count_option is_addressed (fetch_one (has_key user_key v) users))
      × (count_unread v (mark_all_read v db') ≡ 0)
unfolding broadcast count_unread mark_all_read
broadcast-count_unread v now title message users db d = (
  length-notices_for db.next_id now title message users,
  count_where-append (is_unread_of v) db.notices (notices_for db.next_id now title message users)
      ∙ ap (λ k. count_where (is_unread_of v) db.notices + k)
          (unread-notices_for v db.next_id now title message users
            ∙ count_where-fetch_one user_key v is_addressed users d),
  unread-read v (broadcast now title message users db).1.notices,
)
