-- ===== src/Users/Access.antt =====
-- prod/app/core/auth.py: who may see a resource.
use content_fabric.Base.{
  ℕ, ◌≡◌, ◌≢◌, ap, inl, inr, arith, Bool-cases, ==_iff, Bool, true, false, Option, none, some, ◌==◌,
  if◌then◌else◌,
}
use content_fabric.Users.{User, status_admin}

-- What a handler returns: a response, or an HTTPException with its status code.
pub data Reply {ℓ} (A : Type ℓ) : Type ℓ where
  ok : A → Reply A
  http_error : ℕ → Reply A

abbrev pub is_admin : User → Bool
is_admin user = user.status == status_admin

-- The user id for filtering, or None for an admin, who sees all.
abbrev pub scoped_user_id : User → Option ℕ
scoped_user_id user = if is_admin user then none else some user.id

-- `resource.get("created_by") == user["id"]`
abbrev pub created_by_user : Option ℕ → User → Bool
created_by_user none user = false
created_by_user (some owner) user = owner == user.id

abbrev pub check_owner : Option ℕ → User → Bool
check_owner owner user = if is_admin user then true else created_by_user owner user

-- Neither an admin nor the creator.
abbrev pub IsStranger : User → Option ℕ → Type 0
IsStranger user owner = (user.status ≢ status_admin) × (owner ≢ some user.id)

pub stranger-owner :
    (user : User) (owner : Option ℕ) → IsStranger user owner → check_owner owner user ≡ false
stranger-owner user none h = ground arith
stranger-owner user (some o) h = elim (Bool-cases (o == user.id)) [
  | inl same ↦ absurd (h.1 (ap some ((==_iff o user.id).0 same)))
  | inr other ↦ rw other (ground arith)
]

-- `check_owner_or_404` in front of the rest of a handler
abbrev pub check_owner_or_404 {ℓ} : {A : Type ℓ} → Option ℕ → User → Reply A → Reply A
check_owner_or_404 owner user rest = if check_owner owner user then rest else http_error 404

pub http_error-ok {ℓ} : {A : Type ℓ} (code : ℕ) (a : A) → http_error code ≢ ok a
http_error-ok code a e = cc

pub ok-eq {ℓ} : {A : Type ℓ} {a b : A} → ok a ≡ ok b → a ≡ b
ok-eq e = cc
