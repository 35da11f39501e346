-- ===== src/Scheduler/Tokens/Laws.antt =====
-- What the daily check of the tokens counts and writes.
use content_fabric.Base.{
  ℕ, ◌+◌, ◌≡◌, refl, sym, ◌∙◌, Bool, true, false, not, Option, none, some, List, [], ◌∷◌, arith,
  length, if◌then◌else◌, Bool-cases, inl, inr, All,
}
use mathlib.Core.Option
use mathlib.Core.Path.{subst}
use content_fabric.Text.{is_blank}
use content_fabric.Table.{update_where, has_key, fetch_one-update_self, fetch_one-update_where}
use content_fabric.Channels.{
  Channel, Console, channel_id, set_option, get_channel_by_id, get_channels_with_tokens,
  update_token_check, update_channel_tokens,
}
use content_fabric.Youtube.{Outcome, returned, raised, Credentials, Google}
use content_fabric.Youtube.Client.{
  build_credentials, ensure_fresh_credentials, store_refreshed, needs_refresh,
}
use content_fabric.Scheduler.Tokens.{
  Checks, after_refresh, check_with, console_for, check_each, validate_channel_tokens,
}

after_refresh-count :
    (now : ℕ) (ch : Channel) (c : Checks) (r : Outcome Credentials × List Channel)
    → let d = after_refresh now ch c r in d.success + d.failure ≡ c.success + c.failure + 1
after_refresh-count now ch c (returned creds, channels) = omega arith
after_refresh-count now ch c (raised error, channels) = omega arith

check_with-count :
    (google : Google) (now : ℕ) (ch : Channel) (c : Checks) (console : Option Console)
    → let d = check_with google now ch c console in
      d.success + d.failure ≡ c.success + c.failure + 1
check_with-count google now ch c none = omega arith
check_with-count google now ch c (some console) = after_refresh-count now ch c _

check_each-count :
    (google : Google) (now : ℕ) (consoles : List Console) (chs : List Channel) (c : Checks)
    → let d = check_each google now consoles chs c in
      d.success + d.failure ≡ c.success + c.failure + length chs
check_each-count google now consoles [] c = omega arith
check_each-count google now consoles (ch ∷ chs) c =
    let next = check_with google now ch c (console_for ch.console_id consoles) in
    check_each-count google now consoles chs next
    ∙ omega (arith, check_with-count google now ch c (console_for ch.console_id consoles))

-- Every enabled channel with both tokens and a console id is counted once, as a success or as a
-- failure.
pub validate_channel_tokens-count :
    (google : Google) (now : ℕ) (consoles : List Console) (channels : List Channel)
    → let checks = validate_channel_tokens google now consoles channels in
      checks.success + checks.failure ≡ length (get_channels_with_tokens channels)
unfolding validate_channel_tokens
validate_channel_tokens-count google now consoles channels =
    check_each-count google now consoles (get_channels_with_tokens channels)
      (record { success = 0; failure = 0; channels = channels })
    ∙ omega arith

-- A row whose tokens are new, and one that has been checked.
abbrev with_tokens : Credentials → Channel → Channel
with_tokens creds c = record c {
  access_token = some creds.token;
  refresh_token = set_option creds.refresh_token c.refresh_token;
  token_expires_at = set_option creds.expiry c.token_expires_at;
}

abbrev checked : ℕ → Bool → Channel → Channel
checked now passed c = record c { token_checked_at = some now; token_check_ok = some passed }

-- The channel under an id, if there is one, has been checked at a time.
abbrev pub IsCheckedAt : ℕ → Option Channel → Type 0
IsCheckedAt now none = Unit
IsCheckedAt now (some ch) = ch.token_checked_at ≡ some now

check_self :
    (now k : ℕ) (passed : Bool) (channels : List Channel)
    → IsCheckedAt now (get_channel_by_id k (update_token_check now k passed channels).1)
unfolding update_token_check
check_self now k passed channels =
    subst (IsCheckedAt now)
      (sym (fetch_one-update_self channel_id k (checked now passed) (λ c. refl) channels))
      (mapped (get_channel_by_id k channels))
  where
    mapped : (o : Option Channel) → IsCheckedAt now (Option.map (checked now passed) o)
    mapped none = tt
    mapped (some c) = refl

-- An update that keeps the times of the checks keeps this.
keeps-IsCheckedAt :
    (now j k : ℕ) (f : Channel → Channel) (channels : List Channel)
    → ((c : Channel) → (f c).id ≡ c.id)
    → ((c : Channel) → c.token_checked_at ≡ some now → (f c).token_checked_at ≡ some now)
    → IsCheckedAt now (get_channel_by_id j channels)
    → IsCheckedAt now (get_channel_by_id j (update_where (has_key channel_id k) f channels))
keeps-IsCheckedAt now j k f channels same keeps h =
    subst (IsCheckedAt now)
      (sym (fetch_one-update_where channel_id j (has_key channel_id k) f same channels))
      (mapped (get_channel_by_id j channels) h)
  where
    mapped :
        (o : Option Channel)
        → IsCheckedAt now o
        → IsCheckedAt now (Option.map (λ r. if has_key channel_id k r then f r else r) o)
    mapped none h = tt
    mapped (some c) h = elim (Bool-cases (has_key channel_id k c)) [
      | inl hit ↦ rw hit (keeps c h)
      | inr miss ↦ rw miss h
    ]

check-other :
    (now j k : ℕ) (passed : Bool) (channels : List Channel)
    → IsCheckedAt now (get_channel_by_id j channels)
    → IsCheckedAt now (get_channel_by_id j (update_token_check now k passed channels).1)
unfolding update_token_check
check-other now j k passed channels =
    keeps-IsCheckedAt now j k (checked now passed) channels (λ c. refl) (λ c h. refl)

store_refreshed-keeps :
    (now j k : ℕ) (channels : List Channel) (r : Outcome Credentials)
    → IsCheckedAt now (get_channel_by_id j channels)
    → IsCheckedAt now (get_channel_by_id j (store_refreshed k channels r).1)
unfolding update_channel_tokens
store_refreshed-keeps now j k channels (raised error) h = h
store_refreshed-keeps now j k channels (returned creds) h =
    keeps-IsCheckedAt now j k (with_tokens creds) channels (λ c. refl) (λ c same. same) h

refresh-keeps :
    (google : Google) (now j k : ℕ) (creds : Credentials) (channels : List Channel)
    → IsCheckedAt now (get_channel_by_id j channels)
    → IsCheckedAt now (get_channel_by_id j (ensure_fresh_credentials google now k creds channels).1)
unfolding ensure_fresh_credentials
refresh-keeps google now j k creds channels h =
    elim (Bool-cases (not (needs_refresh google now creds))) [
      | inl fresh ↦ rw fresh h
      | inr stale ↦ elim (Bool-cases (is_blank creds.refresh_token)) [
        | inl blank ↦ rw (stale, blank) h
        | inr given ↦
            rw (stale, given) (store_refreshed-keeps now j k channels (google.refresh now creds) h)
      ]
    ]

after_refresh_self :
    (now : ℕ) (ch : Channel) (c : Checks) (r : Outcome Credentials × List Channel)
    → IsCheckedAt now (get_channel_by_id ch.id (after_refresh now ch c r).channels)
after_refresh_self now ch c (returned creds, channels) = check_self now ch.id true channels
after_refresh_self now ch c (raised error, channels) = check_self now ch.id false channels

after_refresh-other :
    (now j : ℕ) (ch : Channel) (c : Checks) (r : Outcome Credentials × List Channel)
    → IsCheckedAt now (get_channel_by_id j r.1)
    → IsCheckedAt now (get_channel_by_id j (after_refresh now ch c r).channels)
after_refresh-other now j ch c (returned creds, channels) h =
    check-other now j ch.id true channels h
after_refresh-other now j ch c (raised error, channels) h = check-other now j ch.id false channels h

check_with_self :
    (google : Google) (now : ℕ) (ch : Channel) (c : Checks) (console : Option Console)
    → IsCheckedAt now (get_channel_by_id ch.id (check_with google now ch c console).channels)
check_with_self google now ch c none = check_self now ch.id false c.channels
check_with_self google now ch c (some console) = after_refresh_self now ch c _

check_with-other :
    (google : Google) (now j : ℕ) (ch : Channel) (c : Checks) (console : Option Console)
    → IsCheckedAt now (get_channel_by_id j c.channels)
    → IsCheckedAt now (get_channel_by_id j (check_with google now ch c console).channels)
check_with-other google now j ch c none h = check-other now j ch.id false c.channels h
check_with-other google now j ch c (some console) h =
    after_refresh-other now j ch c
      (ensure_fresh_credentials google now ch.id (build_credentials ch console) c.channels)
      (refresh-keeps google now j ch.id (build_credentials ch console) c.channels h)

check_each-other :
    (google : Google) (now j : ℕ) (consoles : List Console) (chs : List Channel) (c : Checks)
    → IsCheckedAt now (get_channel_by_id j c.channels)
    → IsCheckedAt now (get_channel_by_id j (check_each google now consoles chs c).channels)
check_each-other google now j consoles [] c h = h
check_each-other google now j consoles (ch ∷ chs) c h =
    check_each-other google now j consoles chs _
      (check_with-other google now j ch c (console_for ch.console_id consoles) h)

check_each_self :
    (google : Google) (now : ℕ) (consoles : List Console) (chs : List Channel) (c : Checks)
    → All
        (λ ch.
          IsCheckedAt now (get_channel_by_id ch.id (check_each google now consoles chs c).channels))
        chs
check_each_self google now consoles [] c = tt
check_each_self google now consoles (ch ∷ chs) c =
    let next = check_with google now ch c (console_for ch.console_id consoles) in
    (
      check_each-other google now ch.id consoles chs next
          (check_with_self google now ch c (console_for ch.console_id consoles)),
      check_each_self google now consoles chs next,
    )

-- After the daily check each of these channels has the time of the check, whether its console was
-- there and whether its tokens could be refreshed or not.
pub validate_channel_tokens-IsCheckedAt :
    (google : Google) (now : ℕ) (consoles : List Console) (channels : List Channel)
    → All
        (λ ch.
          IsCheckedAt now (
            get_channel_by_id ch.id
              (validate_channel_tokens google now consoles channels).channels))
        (get_channels_with_tokens channels)
unfolding validate_channel_tokens
validate_channel_tokens-IsCheckedAt google now consoles channels =
    check_each_self google now consoles (get_channels_with_tokens channels)
      (record { success = 0; failure = 0; channels = channels })
