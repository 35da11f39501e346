-- ===== src/Json.antt =====
-- JSON values as Python holds them, and the column helpers of prod/shared/db/utils.py. A JSON
-- column is its decoded value: `json.loads(json.dumps(x))` is `x`.
pub mod Dumps
use content_fabric.Base.{ℕ, Bool, true, false, not, ◌||◌, Option, none, some, ◌==◌, if◌then◌else◌}
use content_fabric.Text.{Text, is_empty, text_eq}

mutual
  pub data Json : Type 0 where
    null : Json
    bool : Bool → Json
    num : ℕ → Json
    str : Text → Json
    arr : Items → Json
    obj : Fields → Json

  pub data Items : Type 0 where
    nil : Items
    cons : Json → Items → Items

  pub data Fields : Type 0 where
    end : Fields
    field : Text → Json → Fields → Fields

-- Python's truth value: what `x or …`, `if x` and `not x` test.
abbrev pub truthy : Json → Bool
truthy null = false
truthy (bool b) = b
truthy (num n) = not (n == 0)
truthy (str s) = not (is_empty s)
truthy (arr nil) = false
truthy (arr (cons x xs)) = true
truthy (obj end) = false
truthy (obj (field k v fs)) = true

-- `key in d`
unfoldable pub has_field : Text → Fields → Bool
unfolding text_eq
has_field key end = false
has_field key (field k v fs) = text_eq k key || has_field key fs

-- `d.get(key)`
unfoldable pub get_field : Text → Fields → Option Json
unfolding text_eq
get_field key end = none
get_field key (field k v fs) = if text_eq k key then some v else get_field key fs

-- `json.dumps(obj) if obj else None`
abbrev pub serialize_json : Option Json → Option Json
serialize_json none = none
serialize_json (some x) = if truthy x then some x else none

-- `deserialize_json(raw)`: what the column holds, or the default None
abbrev pub deserialize_json : Option Json → Option Json
deserialize_json raw = raw
