-- ===== src/Auth/Tokens.antt =====
-- prod/app/core/tokens.py: tokens with the time of their issue.
pub mod Laws
use content_fabric.Base.{
  ℕ, ◌+◌, ◌<◌, Bool, true, false, Option, none, some, [], ◌∷◌, ◌++◌, ltb, ◌==◌, if◌then◌else◌,
  length,
}
use content_fabric.Text.{Text, is_empty}
use content_fabric.Text.Decimal.{ℤ, pos, negsuc, decimal, parse_int}

abbrev pub password_reset_ttl_sec : ℕ
password_reset_ttl_sec = 3600

abbrev pub verification_token_ttl_sec : ℕ
verification_token_ttl_sec = 86400

-- `f"{hex}_{ts}"`, for what `secrets.token_hex(32)` and `int(time.time())` return
abbrev pub stamped_token : Text → ℕ → Text
stamped_token hex now = hex ++ b'_' ∷ decimal now

unfoldable pub make_reset_token : Text → ℕ → Text
make_reset_token = stamped_token

unfoldable pub make_verification_token : Text → ℕ → Text
make_verification_token = stamped_token

abbrev pub split_at : ℕ → ℕ → Text → Option (Text × Text) → Option (Text × Text)
split_at sep c s (some (before, after)) = some (c ∷ before, after)
split_at sep c s none = if c == sep then some ([], s) else none

-- `s.rsplit(sep, 1)`, if `sep` is in `s`
unfoldable pub rsplit : ℕ → Text → Option (Text × Text)
rsplit sep [] = none
rsplit sep (c ∷ s) = split_at sep c s (rsplit sep s)

-- The tests on the two parts.
abbrev pub parts_ts : Option (Text × Text) → Option ℤ
parts_ts none = none
parts_ts (some (hex, ts)) =
    if is_empty ts then none else if ltb (length hex) 16 then none else parse_int ts

-- An empty text has no `_`, and an empty first part is shorter than 16.
unfoldable pub parse_token_ts : Text → Option ℤ
unfolding rsplit
parse_token_ts token = parts_ts (rsplit b'_' token)

-- `now - ts > ttl`
abbrev pub older : ℕ → ℕ → ℤ → Bool
older now ttl (pos ts) = ltb (ts + ttl) now
older now ttl (negsuc n) = ltb ttl (now + n + 1)

abbrev pub expired_at : ℕ → ℕ → Option ℤ → Bool
expired_at ttl now none = true
expired_at ttl now (some ts) = if ttl == 0 then true else older now ttl ts

unfoldable pub is_token_ts_expired : Text → ℕ → ℕ → Bool
is_token_ts_expired token ttl now = expired_at ttl now (parse_token_ts token)
