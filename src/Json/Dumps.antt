-- ===== src/Json/Dumps.antt =====
-- `json.dumps` with its defaults, by which prod/shared/db/utils.py writes a JSON column: ASCII only,
-- `, ` between the items and `: ` after a key.
use content_fabric.Base.{
  ℕ, ◌+◌, ◌-◌, ◌/◌, ◌%◌, true, false, ◌&&◌, ◌||◌, [], ◌∷◌, ◌++◌, ltb, leb, ◌==◌, if◌then◌else◌,
}
use content_fabric.Text.{Text, text, backslash}
use content_fabric.Text.Decimal.{decimal}
use content_fabric.Json.{Json, null, bool, num, str, arr, obj, Items, nil, cons, Fields, end, field}

abbrev pub hex_digit : ℕ → ℕ
hex_digit n = if ltb n 10 then b'0' + n else b'a' + (n - 10)

-- `\uXXXX`
abbrev pub hex_escape : ℕ → Text
hex_escape n =
    backslash
    ∷ b'u'
    ∷ hex_digit (n / 4096)
    ∷ hex_digit (n / 256 % 16)
    ∷ hex_digit (n / 16 % 16)
    ∷ hex_digit (n % 16)
    ∷ []

-- A character above the basic plane is a pair of surrogates.
abbrev pub escape_other : ℕ → Text
escape_other c =
    if ltb c 65536
    then hex_escape c
    else hex_escape (55296 + (c - 65536) / 1024) ++ hex_escape (56320 + (c - 65536) % 1024)

abbrev pub escape_char : ℕ → Text
escape_char c =
    if (c == b'"') || (c == backslash)
    then backslash ∷ c ∷ []
    else if c == 10
    then backslash ∷ b'n' ∷ []
    else if c == 13
    then backslash ∷ b'r' ∷ []
    else if c == 9
    then backslash ∷ b't' ∷ []
    else if c == 12
    then backslash ∷ b'f' ∷ []
    else if c == 8
    then backslash ∷ b'b' ∷ []
    else if leb 32 c && leb c 126
    then c ∷ []
    else escape_other c

-- the characters of a string and then `rest`
unfoldable pub escaped : Text → Text → Text
escaped [] rest = rest
escaped (c ∷ s) rest = escape_char c ++ escaped s rest

-- a string and then `rest`
abbrev pub quoted : Text → Text → Text
quoted s rest = b'"' ∷ escaped s (b'"' ∷ rest)

-- What `json.dumps` writes, and then `rest`.
unfoldable mutual
  unfolding escaped decimal

  pub dumps_onto : Json → Text → Text
  dumps_onto null rest = text "null" ++ rest
  dumps_onto (bool true) rest = text "true" ++ rest
  dumps_onto (bool false) rest = text "false" ++ rest
  dumps_onto (num n) rest = decimal n ++ rest
  dumps_onto (str s) rest = quoted s rest
  dumps_onto (arr xs) rest = b'[' ∷ dumps_items xs rest
  dumps_onto (obj fs) rest = b'{' ∷ dumps_fields fs rest

  pub dumps_items : Items → Text → Text
  dumps_items nil rest = b']' ∷ rest
  dumps_items (cons x nil) rest = dumps_onto x (b']' ∷ rest)
  dumps_items (cons x (cons y ys)) rest = dumps_onto x (text ", " ++ dumps_items (cons y ys) rest)

  pub dumps_fields : Fields → Text → Text
  dumps_fields end rest = b'}' ∷ rest
  dumps_fields (field k v end) rest = quoted k (text ": " ++ dumps_onto v (b'}' ∷ rest))
  dumps_fields (field k v (field j w fs)) rest =
      quoted k (text ": " ++ dumps_onto v (text ", " ++ dumps_fields (field j w fs) rest))

-- `json.dumps(x)`
unfoldable pub dumps : Json → Text
unfolding dumps_onto
dumps x = dumps_onto x []
