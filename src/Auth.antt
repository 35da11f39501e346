-- ===== src/Auth.antt =====
-- prod/app/core/tokens.py and prod/app/api/endpoints/auth.py: signing in, two-factor codes, password
-- resets and the verification of email addresses.
pub mod Tokens
pub mod Login
pub mod Recovery
use content_fabric.Base.{ℕ, Bool}
use content_fabric.Text.{Text}

-- passlib, pyotp and PyJWT as prod/app/core/security.py and the handlers call them.
pub record Crypto : Type 0 where
  pub verify_password : Text → Text → Bool
  pub hash_password : Text → Text
  pub verify_code : Text → Text → Bool
  pub access_token : ℕ → Text

pub record TokenResponse : Type 0 where
  pub access_token : Text
  pub requires_2fa : Bool
