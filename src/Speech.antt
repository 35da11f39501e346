-- ===== src/Speech.antt =====
-- prod/shared/tts/openai_tts.py: `_chunk_text`, which cuts a text for the speech service. The regular
-- expression `(?<=[.!?\n])\s+` is written out as a scan.
pub mod Content
pub mod Laws
use content_fabric.Base.{
  ℕ, zero, suc, Bool, true, not, ◌||◌, List, [], ◌∷◌, ◌++◌, map, ltb, leb, ◌==◌, if◌then◌else◌,
  length, take, drop, keep,
}
use content_fabric.Text.{Text, is_empty}
use content_fabric.Text.Decimal.{is_space, strip}
use content_fabric.Text.Split.{push}

-- `[.!?\n]`
abbrev pub is_end : ℕ → Bool
is_end c = (c == b'.') || (c == b'!') || (c == b'?') || (c == 10)

-- what stands before a character: the middle of a sentence, its end, or the gap after it
pub data Seen : Type 0 where
  inside ended gap : Seen

abbrev pub seen_char : ℕ → Seen
seen_char c = if is_end c then ended else inside

abbrev pub next : Seen → ℕ → Seen
next inside c = seen_char c
next ended c = if is_space c then gap else seen_char c
next gap c = if is_space c then gap else seen_char c

abbrev pub place : Seen → ℕ → List Text → List Text
place inside c ss = push c ss
place ended c ss = if is_space c then [] ∷ ss else push c ss
place gap c ss = if is_space c then ss else push c ss

unfoldable pub split_from : Seen → Text → List Text
split_from seen [] = [] ∷ []
split_from seen (c ∷ s) = place seen c (split_from (next seen c) s)

-- `_SENT_SPLIT_RE.split(text)`
abbrev pub sentences : Text → List Text
sentences text = split_from inside text

-- `s[i:i + max_len]` for `i in range(0, len(s), max_len)`, in at most `fuel` slices;
-- `range` raises when max_len is 0, which no caller passes
unfoldable pub slices : ℕ → ℕ → Text → List Text
slices zero max_len s = []
slices (suc fuel) max_len [] = []
slices (suc fuel) max_len (c ∷ s) =
    take max_len (c ∷ s) ∷ slices fuel max_len (drop max_len (c ∷ s))

-- `if current: chunks.append(current.strip())`
abbrev pub flush : List Text → Text → List Text
flush chunks current = if is_empty current then chunks else chunks ++ strip current ∷ []

-- `(current + " " + sent).strip() if current else sent`
abbrev pub candidate : Text → Text → Text
candidate current sent = if is_empty current then sent else strip (current ++ 32 ∷ sent)

-- One sentence: the chunks and `current`, before and after.
abbrev pub add_sentence : ℕ → Text → List Text × Text → List Text × Text
add_sentence max_len sent (chunks, current) =
    if is_empty sent
    then (chunks, current)
    else if ltb max_len (length sent)
    then (flush chunks current ++ map strip (slices (length sent) max_len sent), [])
    else if leb (length (candidate current sent)) max_len
    then (chunks, candidate current sent)
    else (flush chunks current, sent)

unfoldable pub add_sentences : ℕ → List Text → List Text × Text → List Text × Text
add_sentences max_len [] state = state
add_sentences max_len (sent ∷ sents) state =
    add_sentences max_len sents (add_sentence max_len sent state)

abbrev pub non_blank : List Text → List Text
non_blank chunks = keep (λ c. not (is_empty c)) chunks

abbrev pub finish : List Text × Text → List Text
finish (chunks, current) = non_blank (flush chunks current)

unfoldable pub chunk_text : ℕ → Text → List Text
chunk_text max_len text =
    if is_empty text
    then []
    else if leb (length text) max_len
    then text ∷ []
    else finish (add_sentences max_len (sentences text) ([], []))
