-- ===== src/Users/Codes.antt =====
-- Backup codes of prod/shared/db/repositories/user_repo.py.
use content_fabric.Base.{
  ℕ, ◌≡◌, ◌≢◌, refl, sym, ap, ◌∙◌, true, false, ◌||◌, some, List, [], ◌∷◌, some-eq, Bool-cases, inl,
  inr,
}
use mathlib.Core.Option
use content_fabric.Text.{Text, text_eq, text_eq→eq, text_eq_comm, text_mem}
use content_fabric.Table.{
  fetch_one-key, fetch_one, update_where, has_key, fetch_one-update_self, fetch_one-update_other,
}
use content_fabric.Users.{
  User, UserDb, user_key, get_user_by_id, remove_code, consume_found, consume_backup_code,
}

-- No code occurs twice.
abbrev pub NoRepeat : List Text → Type 0
NoRepeat [] = Unit
NoRepeat (c ∷ codes) = (text_mem c codes ≡ false) × NoRepeat codes

remove_code-gone :
    (code : Text) (codes : List Text)
    → NoRepeat codes
    → text_mem code (remove_code code codes) ≡ false
unfolding remove_code text_mem
remove_code-gone code [] h = refl
remove_code-gone code (c ∷ codes) h = elim (Bool-cases (text_eq c code)) [
  | inl same ↦ rw same (rw (text_eq→eq c code same) at h.0)
  | inr other ↦ rw (other, text_eq_comm code c, other) (remove_code-gone code codes h.1)
]

remove_code-others :
    (code other : Text) (codes : List Text)
    → text_eq other code ≡ false
    → text_mem other (remove_code code codes) ≡ text_mem other codes
unfolding remove_code text_mem
remove_code-others code other [] ne = refl
remove_code-others code other (c ∷ codes) ne = elim (Bool-cases (text_eq c code)) [
  | inl same ↦ rw (same, text_eq→eq c code same, ne) refl
  | inr differs ↦
      rw differs (ap (λ b. text_eq other c || b) (remove_code-others code other codes ne))
]

abbrev pub used_up : Text → List Text → User → User
used_up code codes r = record r { totp_backup_codes = remove_code code codes }

-- Where no code is stored twice, a backup code that the user holds is accepted, once: the same code
-- is refused right after, all other codes remain as they were, and no other user changes. (Of a
-- code that is stored twice each use removes one.)
pub consume_backup_code-once :
    (k : ℕ) (code : Text) (db : UserDb) (u : User)
    → get_user_by_id db k ≡ some u
    → NoRepeat u.totp_backup_codes
    → text_mem code u.totp_backup_codes ≡ true
    → let (accepted, db') = consume_backup_code k code db in
      (accepted ≡ true)
      × (consume_backup_code k code db' ≡ (false, db'))
      × ((v : User)
          → get_user_by_id db' k ≡ some v
          → (other : Text) → text_eq other code ≡ false
          → text_mem other v.totp_backup_codes ≡ text_mem other u.totp_backup_codes)
      × ((j : ℕ) → j ≢ k → get_user_by_id db' j ≡ get_user_by_id db j)
unfolding consume_backup_code
consume_backup_code-once k code db u found fresh held =
    let f : User → User = used_up code u.totp_backup_codes in
    let same : u.id ≡ k = fetch_one-key user_key k db.users u found in
    let after : fetch_one (has_key user_key k) (update_where (has_key user_key u.id) f db.users)
        ≡ some (f u) =
      ap (λ i. fetch_one (has_key user_key k) (update_where (has_key user_key i) f db.users)) same
      ∙ fetch_one-update_self user_key k f (λ r. refl) db.users
      ∙ ap (Option.map f) found in
    rw (found, held)
      (
        refl,
        ap (consume_found code _) after ∙ rw (remove_code-gone code u.totp_backup_codes fresh) refl,
        λ v now other ne.
            ap (λ w. text_mem other w.totp_backup_codes) (some-eq (sym now ∙ after))
            ∙ remove_code-others code other u.totp_backup_codes ne,
        λ j ne. fetch_one-update_other user_key j u.id f (λ e. ne (e ∙ same)) (λ r. refl) db.users,
      )
