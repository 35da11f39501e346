-- ===== src/Tests/Inbox.antt =====
-- Two users and their notifications.
use content_fabric.Base.{◌+◌, ◌≡◌, refl, none, [], ◌∷◌, keep, arith}
use content_fabric.Text.{text}
use content_fabric.Table.{count_where, fetch_one, count_option, has_key}
use content_fabric.Users.{user_key}
use content_fabric.Inbox.{
  InboxDb, is_of, new_notice, is_addressed, broadcast, count_unread, mark_all_read,
}
use content_fabric.Inbox.Laws.{
  mark, mark_all, delete, perform_all, perform_all-keeps, broadcast-count_unread,
}
use content_fabric.Tests.Data.{owner, stranger}

abbrev an_inbox : InboxDb
an_inbox = record {
  notices =
      new_notice 1 5 owner.id (text "task_failed") (text "Upload failed") none
      ∷ new_notice 2 6 stranger.id (text "task_failed") (text "Upload failed") none
      ∷ [];
  next_id = 3;
}

-- The other user reads and deletes what is theirs, and tries to delete the owner's.
perform_all-keeps_example :
    keep
      (is_of owner.id)
      (perform_all
        (mark 2 stranger.id ∷ mark_all stranger.id ∷ delete 1 stranger.id ∷ [])
        an_inbox).notices
    ≡ keep (is_of owner.id) an_inbox.notices
perform_all-keeps_example =
    perform_all-keeps owner.id
      (mark 2 stranger.id ∷ mark_all stranger.id ∷ delete 1 stranger.id ∷ []) an_inbox
      (refl, (refl, (refl, tt)))

broadcast-count_unread_example :
    let (count, db') = broadcast 9 (text "Maintenance") none (owner ∷ stranger ∷ []) an_inbox in
    (count ≡ count_where is_addressed (owner ∷ stranger ∷ []))
    × (count_unread owner.id db'
        ≡ count_unread owner.id an_inbox
          + count_option is_addressed
              (fetch_one (has_key user_key owner.id) (owner ∷ stranger ∷ [])))
    × (count_unread owner.id (mark_all_read owner.id db') ≡ 0)
broadcast-count_unread_example =
    broadcast-count_unread owner.id 9 (text "Maintenance") none (owner ∷ stranger ∷ []) an_inbox
      (((λ e. omega (arith, e)), tt), (tt, tt))
