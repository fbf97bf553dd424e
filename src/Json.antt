-- ===== src/Json.antt =====
-- JavaScript values as the database holds and checks them (src/index.js: validateId, validateRecord,
-- assertJsonCompatible). A number is the 64-bit pattern of its double. A value that is not JSON and
-- is none of the other cases (a function, a symbol, a bigint, an object with a prototype of its own
-- or with symbol keys) is `exotic`; `is_object` of it is what `typeof` says. Values are trees:
-- a circular reference, which assertJsonCompatible refuses, cannot be written, and arrays have no holes.
pub mod Checks
pub mod Text
use Prim.Native.Char.{code}
use syncio.Base.{
  ℕ, ◌+◌, ◌/◌, ◌%◌, ◌^◌, String, Bool, true, false, not, ◌&&◌, ◌||◌, List, [], ◌∷◌, Result, ok, err,
  type_error, require, leb, eqb, ◌==◌, all, if◌then◌else◌,
}

mutual
  pub data Value : Type 0 where
    undefined : Value
    null : Value
    bool : Bool → Value
    num : ℕ → Value
    str : String → Value
    arr : Items → Value
    obj : Fields → Value
    exotic : Bool → Value

  pub data Items : Type 0 where
    nil : Items
    cons : Value → Items → Items

  pub data Fields : Type 0 where
    end : Fields
    field : String → Value → Fields → Fields

-- The code points of a text.
abbrev pub codes : String → List ℕ
codes String.[] = []
codes (String.◌∷◌ c s) = code c ∷ codes s

-- `s.length`, in UTF-16 code units.
abbrev pub utf16_length : List ℕ → ℕ
utf16_length [] = 0
utf16_length (c ∷ cs) = (if leb (2 ^ 16) c then 2 else 1) + utf16_length cs

abbrev exponent : ℕ → ℕ
exponent bits = bits / 2 ^ 52 % 2 ^ 11

-- Number.isFinite: the exponent is not all ones.
unfoldable pub is_finite : ℕ → Bool
is_finite bits = not (eqb (exponent bits) 2047)

-- Both zeros and NaN are falsy.
unfoldable pub number_truthy : ℕ → Bool
unfolding is_finite
number_truthy bits = not (eqb (bits % 2 ^ 63) 0) && (is_finite bits || eqb (bits % 2 ^ 52) 0)

-- Boolean(value)
unfoldable pub truthy : Value → Bool
unfolding number_truthy
truthy undefined = false
truthy null = false
truthy (bool b) = b
truthy (num n) = number_truthy n
truthy (str s) = not (s == "")
truthy _ = true

-- The own property of an object; `undefined` where there is none.
unfoldable pub get_field : String → Fields → Value
get_field k end = undefined
get_field k (field j v fs) = if j == k then v else get_field k fs

unfoldable pub set_field : String → Value → Fields → Fields
set_field k v end = field k v end
set_field k v (field j w fs) =
    let rest = set_field k v fs in if j == k then field k v fs else field j w rest

-- `value.key` for a value that validateRecord has passed; other values have no such property here.
unfoldable pub property : String → Value → Value
unfolding get_field
property k (obj fs) = get_field k fs
property k _ = undefined

-- assertJsonCompatible; `json_items` and `json_fields` are its two loops.
unfoldable mutual
  unfolding is_finite

  pub json_compatible : Value → Bool
  json_compatible undefined = false
  json_compatible null = true
  json_compatible (bool b) = true
  json_compatible (num n) = is_finite n
  json_compatible (str s) = true
  json_compatible (arr xs) = json_items xs
  json_compatible (obj fs) = json_fields fs
  json_compatible (exotic b) = false

  pub json_items : Items → Bool
  json_items nil = true
  json_items (cons x xs) = json_compatible x && json_items xs

  pub json_fields : Fields → Bool
  json_fields end = true
  json_fields (field k v fs) = json_compatible v && json_fields fs

unfoldable pub validate_record : Value → Result Fields
unfolding json_compatible
validate_record (obj fs) = if json_fields fs then ok fs else err type_error
validate_record _ = err type_error

-- /^[A-Za-z0-9_-]$/
abbrev pub name_char : ℕ → Bool
name_char c =
    leb b'A' c && leb c b'Z'
    || leb b'a' c && leb c b'z'
    || leb b'0' c && leb c b'9'
    || eqb c b'_'
    || eqb c b'-'

unfoldable pub valid_collection_name : String → Bool
valid_collection_name name = not (name == "") && all name_char (codes name)

unfoldable pub validate_collection_name : String → Result (Unit {0})
validate_collection_name name = require (valid_collection_name name) type_error

unfoldable pub valid_id : String → Bool
valid_id id = let n = utf16_length (codes id) in leb 1 n && leb n 512

unfoldable pub validate_id : Value → Result String
validate_id (str id) = if valid_id id then ok id else err type_error
validate_id _ = err type_error
