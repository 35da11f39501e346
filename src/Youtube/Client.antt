-- ===== src/Youtube/Client.antt =====
-- prod/shared/youtube/client.py and token_refresh.py: credentials, the request and its retries.
pub mod Laws
use content_fabric.Base.{
  ℕ, zero, suc, ◌+◌, ◌*◌, Bool, true, false, not, ◌&&◌, ◌||◌, Option, none, some, List, [], ◌∷◌,
  ◌++◌, ltb, leb, ◌==◌, if◌then◌else◌, length, take, keep, is_some,
}
use content_fabric.Text.{Text, text, or_blank, is_blank, contains_text}
use content_fabric.Channels.{Channel, Console, update_channel_tokens}
use content_fabric.Youtube.{
  Outcome, returned, raised, Credentials, VideoBody, Answer, with_id, without_id, broken, Google,
}

-- `TOKEN_REFRESH_MARGIN`, in seconds
abbrev pub token_refresh_margin : ℕ
token_refresh_margin = 300

abbrev pub margin_reached : ℕ → Option ℕ → Bool
margin_reached now none = true
margin_reached now (some expiry) = ltb expiry (now + token_refresh_margin)

unfoldable pub needs_refresh : Google → ℕ → Credentials → Bool
needs_refresh google now creds = google.expired now creds.expiry || margin_reached now creds.expiry

abbrev pub build_credentials : Channel → Console → Credentials
build_credentials channel console = record {
  token = or_blank channel.access_token;
  refresh_token = channel.refresh_token;
  client_id = console.client_id;
  client_secret = console.client_secret;
  expiry = channel.token_expires_at;
}

abbrev pub store_refreshed :
    ℕ → List Channel → Outcome Credentials → Outcome Credentials × List Channel
store_refreshed channel_id channels (raised error) = (raised error, channels)
store_refreshed channel_id channels (returned creds) = (
  returned creds,
  (update_channel_tokens channel_id creds.token creds.refresh_token creds.expiry channels).1,
)

-- `ensure_fresh_credentials` with a channel id
unfoldable pub ensure_fresh_credentials :
    Google → ℕ → ℕ → Credentials → List Channel → Outcome Credentials × List Channel
unfolding needs_refresh
ensure_fresh_credentials google now channel_id creds channels =
    if not (needs_refresh google now creds)
    then (returned creds, channels)
    else if is_blank creds.refresh_token
    then (raised (text "No refresh_token available; re-authentication required"), channels)
    else store_refreshed channel_id channels (google.refresh now creds)

-- `[\x00-\x08\x0b\x0c\x0e-\x1f]`
abbrev pub is_control : ℕ → Bool
is_control c = leb c 8 || (c == 11) || (c == 12) || (leb 14 c && leb c 31)

abbrev pub later_of : ℕ → ℕ → Option ℕ → Option ℕ
later_of c d (some i) = some (suc i)
later_of c d none = if c == d then some 0 else none

-- `s.rfind(c)`, with `none` for -1
unfoldable pub rfind : ℕ → Text → Option ℕ
rfind c [] = none
rfind c (d ∷ s) = later_of c d (rfind c s)

-- `i > max_len * 0.8`
abbrev pub is_late : ℕ → Option ℕ → Bool
is_late max_len none = false
is_late max_len (some i) = ltb (8 * max_len) (10 * i)

abbrev pub cut_at : Option ℕ → Text → Text
cut_at none s = s
cut_at (some i) s = take i s

abbrev pub truncate : ℕ → Text → Text
truncate max_len cut =
    if is_late max_len (rfind 10 cut)
    then cut_at (rfind 10 cut) cut
    else if is_late max_len (rfind 32 cut)
    then cut_at (rfind 32 cut) cut
    else cut

unfoldable pub sanitize : Text → ℕ → Text
sanitize text max_len =
    let cleaned = keep (λ c. not (is_control c)) text in
    if leb (length cleaned) max_len then cleaned else truncate max_len (take max_len cleaned)

abbrev pub max_title_len : ℕ
max_title_len = 100

abbrev pub max_description_len : ℕ
max_description_len = 5000

unfoldable pub video_body : Text → Option Text → List Text → VideoBody
unfolding sanitize
video_body title description tags = record {
  snippet_title = take max_title_len title;
  snippet_description = sanitize (or_blank description) max_description_len;
  snippet_tags = tags;
  category_id = text "22";
  privacy_status = text "public";
}

abbrev pub is_auth_error : Text → Bool
is_auth_error err =
    contains_text (text "invalid_grant") err
    || contains_text (text "Token has been expired or revoked") err

abbrev pub unexpected_response : Text → Text
unexpected_response response = text "Upload returned unexpected response: " ++ response

abbrev pub retry_or_raise : ℕ → Text → Outcome (Option Text) → Outcome (Option Text)
retry_or_raise retries_left err again =
    if is_auth_error err then raised err else if retries_left == 0 then raised err else again

-- What the loop does with one answer, and `again` for the next round. After a response with no id
-- `response` is set, so that there is no next round: the loop ends and returns that response.
abbrev pub on_answer : ℕ → Outcome (Option Text) → Answer → Outcome (Option Text)
on_answer retries_left again (with_id video_id) = returned (some video_id)
on_answer retries_left again (without_id response) =
    retry_or_raise retries_left (unexpected_response response) (returned none)
on_answer retries_left again (broken err) = retry_or_raise retries_left err again

-- `_resumable_upload`: the id in the response, with the retries left and the calls made so far
unfoldable pub resumable_upload : ℕ → ℕ → (ℕ → Answer) → Outcome (Option Text)
resumable_upload zero call answers = on_answer 0 (raised []) (answers call)
resumable_upload (suc left) call answers =
    on_answer (suc left) (resumable_upload left (suc call) answers) (answers call)

abbrev pub resumable_max_retries : ℕ
resumable_max_retries = 3

-- `upload_video`, without the thumbnail, whose errors are only logged
unfoldable pub upload_video :
    Google → Credentials → Text → Text → Option Text → List Text → Outcome (Option Text)
unfolding video_body resumable_upload
upload_video google creds file_path title description tags =
    resumable_upload resumable_max_retries 0
      (google.answers creds (video_body title description tags) file_path)
