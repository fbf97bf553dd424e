-- ===== src/Operations/Tokens.antt =====
-- src/operations.js: createTokenAuthority and createEntitlementGate. A project's tokens are a
-- payload and its signature, each as base64url, with a point between.
pub mod Signed
use Prim.Native.String.{◌++◌}
use syncio.Base.{
  ℕ, ◌+◌, String, Bool, true, false, not, ◌&&◌, ◌||◌, Option, none, some, List, [], ◌∷◌, Result, ok,
  err, type_error, ◌>>=◌, ◌>>◌, require, any, leb, ltb, ◌==◌, if◌then◌else◌,
}
use syncio.Base.Maps.{Map, get}
use syncio.Json.{
  Value, undefined, null, num, str, arr, obj, Fields, end, field, codes, utf16_length, truthy,
  property, get_field,
}
use syncio.Document.Runtime.{double_of, natural_of}
use syncio.Document.Path.{split_path}
use syncio.Document.Match.{items_list}
use syncio.Document.Update.{items_of}
use syncio.Database.Transaction.{unique}
use syncio.Control.Records.{is_text}

-- JSON, Buffer and node:crypto. `hmac` has the key of the authority; `same_bytes` is the comparison
-- of the lengths and timingSafeEqual.
pub record Codec (Bytes : Type 0) : Type 0 where
  pub stringify : Value → String
  pub parse : String → Option Value
  pub utf8 : String → Bytes
  pub text : Bytes → String
  pub to_base64url : Bytes → String
  pub from_base64url : String → Bytes
  pub hmac : String → Bytes
  pub same_bytes : Bytes → Bytes → Bool

abbrev pub text_values : List String → List Value
text_values [] = []
text_values (s ∷ ss) = str s ∷ text_values ss

abbrev pub payload_of : String → Value → Value → Value → List String → ℕ → ℕ → String → Value
payload_of issuer subject project role entitlements now expires uuid = obj (
    field "iss" (str issuer) (
      field "sub" subject (
        field "projectId" project (
          field "role" role (
            field "entitlements" (arr (items_of (text_values (unique entitlements)))) (
              field "iat" (num (double_of now))
                (field "exp" (num (double_of (now + expires))) (field "jti" (str uuid) end))))))))

abbrev pub is_behind : ℕ → Option ℕ → Bool
is_behind now none = false
is_behind now (some expires) = ltb now expires

-- `payload.exp > now`, of a safe integer; a negative one is in the past.
unfoldable pub is_later : ℕ → Value → Bool
unfolding natural_of
is_later now (num bits) = is_behind now (natural_of bits)
is_later now _ = false

-- What the payload of a token has to say.
unfoldable pub is_valid_payload : String → ℕ → Value → Bool
unfolding is_later
is_valid_payload issuer now payload =
    is_text issuer (property "iss" payload)
    && truthy (property "sub" payload)
    && truthy (property "projectId" payload)
    && is_later now (property "exp" payload)

abbrev pub has_properties : Value → Bool
has_properties undefined = false
has_properties null = false
has_properties v = true

module _ {Bytes : Type 0} (codec : Codec Bytes) (issuer : String) where
  unfoldable pub sign : Value → String
  sign payload =
      let body = codec.to_base64url (codec.utf8 (codec.stringify payload)) in
      body ++ "." ++ codec.to_base64url (codec.hmac body)

  -- The expiry is given in seconds, as natural numbers that a double holds.
  unfoldable pub issue : Value → Value → Value → List String → ℕ → ℕ → String → Result String
  unfolding sign
  issue subject project role entitlements now expires uuid = do
    require (truthy subject && truthy project) type_error
    ok (sign (payload_of issuer subject project role entitlements now expires uuid))

  -- The tests of a token's signature, and of its body once it is parsed.
  unfoldable pub is_signed : String → String → Bool
  is_signed body signature =
      not (body == "")
      && not (signature == "")
      && codec.to_base64url (codec.from_base64url signature) == signature
      && codec.same_bytes (codec.from_base64url signature) (codec.hmac body)

  -- The payload, or null; reading a property of null throws.
  unfoldable pub check_payload : ℕ → String → Option Value → Result Value
  unfolding is_valid_payload
  check_payload now body none = ok null
  check_payload now body (some payload) =
      if codec.to_base64url (codec.from_base64url body) == body
      then (if has_properties payload
          then ok (if is_valid_payload issuer now payload then payload else null)
          else err type_error)
      else ok null

  unfoldable pub verify_parts : ℕ → List String → Result Value
  unfolding is_signed check_payload
  verify_parts now (body ∷ signature ∷ []) =
      if is_signed body signature
      then check_payload now body (codec.parse (codec.text (codec.from_base64url body)))
      else ok null
  verify_parts now (body ∷ signature ∷ extra ∷ parts) =
      if extra == "" && is_signed body signature
      then check_payload now body (codec.parse (codec.text (codec.from_base64url body)))
      else ok null
  verify_parts now parts = ok null

  unfoldable pub verify : ℕ → Value → Result Value
  unfolding verify_parts
  verify now (str token) =
      if leb (utf16_length (codes token)) 8192 then verify_parts now (split_path token) else ok null
  verify now token = ok null

-- `requiredByAction[action] ?? requiredByAction['*']`, where an empty requirement is none.
abbrev pub required_for : String → Map String → String
required_for action required = elim (get action required) [
  | some entitlement ↦ entitlement
  | none ↦ elim (get "*" required) [ some entitlement ↦ entitlement | none ↦ "" ]
]

unfoldable pub authorize_entitlement : Map String → String → List String → Bool
authorize_entitlement required action entitlements =
    let entitlement = required_for action required in
    entitlement == ""
    || any (λ granted. granted == "*") entitlements
    || any (λ granted. granted == entitlement) entitlements
