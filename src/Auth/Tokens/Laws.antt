-- ===== src/Auth/Tokens/Laws.antt =====
-- What is read from a token that was made here.
use content_fabric.Base.{
  ℕ, ◌+◌, ◌≤◌, ◌<◌, ◌≡◌, refl, ◌∙◌, ap, false, none, some, [], ◌∷◌, ◌++◌, arith, ltb, length,
}
use content_fabric.Text.{Text, is_empty}
use content_fabric.Text.Decimal.{
  ℤ, pos, AllDigits, decimal, decimal-digits, parse_int, parse_int-decimal,
}
use content_fabric.Auth.Tokens.{
  rsplit, split_at, parse_token_ts, make_reset_token, is_token_ts_expired, expired_at,
}

rsplit-digits : (s : Text) → AllDigits s → rsplit b'_' s ≡ none
unfolding rsplit
rsplit-digits [] h = refl
rsplit-digits (c ∷ s) h = rw (rsplit-digits s h.1) (ground (arith, h.0))

rsplit-join : (hex s : Text) → AllDigits s → rsplit b'_' (hex ++ b'_' ∷ s) ≡ some (hex, s)
unfolding rsplit
rsplit-join [] s h = rw (rsplit-digits s h) refl
rsplit-join (c ∷ hex) s h = ap (split_at b'_' c _) (rsplit-join hex s h)

parse_int-some : (s : Text) (n : ℤ) → parse_int s ≡ some n → is_empty s ≡ false
unfolding parse_int
parse_int-some [] n h = cc
parse_int-some (c ∷ s) n h = refl

-- A reset token with at least 16 random digits reads back as the time at which it was made.
pub parse_token_ts-make_reset_token :
    (hex : Text) (now : ℕ)
    → 16 ≤ length hex
    → parse_token_ts (make_reset_token hex now) ≡ some (pos now)
unfolding parse_token_ts make_reset_token
parse_token_ts-make_reset_token hex now long =
    rw (rsplit-join hex (decimal now) (decimal-digits now)) (
      rw (parse_int-some (decimal now) (pos now) (parse_int-decimal now), parse_int-decimal now)
        (ground arith))

-- A reset token of 16 or more random digits counts as expired exactly when more than its time to
-- live, which is not zero, has passed since it was made.
pub is_token_ts_expired_lem :
    (hex : Text) (issued ttl now : ℕ)
    → 16 ≤ length hex
    → 0 < ttl
    → is_token_ts_expired (make_reset_token hex issued) ttl now ≡ ltb (issued + ttl) now
unfolding is_token_ts_expired
is_token_ts_expired_lem hex issued ttl now long lives =
    ap (expired_at ttl now) (parse_token_ts-make_reset_token hex issued long) ∙ ground arith
