-- ===== src/Operations/Tokens/Signed.antt =====
-- What a token proves (src/operations.js: createTokenAuthority).
use Prim.Native.String.{◌++◌}
use Prim.Native.String.append
use Prim.Native.Char.{Char, code}
use syncio.Base.{
  ℕ, ◌+◌, ◌<◌, ◌≡◌, ◌≢◌, refl, sym, ap, subst, ◌∙◌, String, Bool, true, false, not, ◌&&◌,
  Bool-cases, some, List, [], ◌∷◌, ok, ok-injective, require-eq-ok, type_error, inl, inr, all, leb,
  eqb, lt→ltb, arith, ◌==◌, eq_iff,
}
use syncio.Control.Records.{is_text}
use syncio.Json.{Value, num, undefined, null, get_field, str, codes, utf16_length, truthy, property}
use syncio.Document.Runtime.{double_of, natural_of}
use syncio.Document.Path.{split_path, push_char}
use syncio.Operations.Tokens.{
  Codec, payload_of, sign, issue, is_signed, check_payload, verify_parts, verify, is_valid_payload,
  has_properties, is_later, is_behind,
}

abbrev joined : List String → List String → List String
joined [] ys = ys
joined (x ∷ xs) ys = x ∷ joined xs ys

-- Splitting gives one part at least.
record IsSplit (parts : List String) : Type 0 where
  first : String
  others : List String
  shape : parts ≡ first ∷ others

split_path-IsSplit : (s : String) → IsSplit (split_path s)
unfolding split_path
split_path-IsSplit String.[] = record { first = ""; others = []; shape = refl }
split_path-IsSplit (String.◌∷◌ c s) = elim (Bool-cases (eqb (code c) b'.')) [
  | inl point ↦ rw point (record { first = ""; others = split_path s; shape = refl })
  | inr other ↦
      let rest = split_path-IsSplit s in
      rw (other, rest.shape)
        (record { first = String.◌∷◌ c rest.first; others = rest.others; shape = refl })
]

push_char-joined :
    (c : Char) (parts ys : List String)
    → IsSplit parts
    → push_char c (joined parts ys) ≡ joined (push_char c parts) ys
push_char-joined c [] ys split = let no = split.shape in cc
push_char-joined c (x ∷ xs) ys split = refl

-- A point parts two texts.
split_path-append :
    (s t : String) → split_path (s ++ "." ++ t) ≡ joined (split_path s) (split_path t)
unfolding split_path
split_path-append String.[] t = rw (append.nil ("." ++ t), append.cons "." "" t, append.nil t) refl
split_path-append (String.◌∷◌ c s) t = elim (Bool-cases (eqb (code c) b'.')) [
  | inl point ↦
      rw (append.cons c s ("." ++ t), point) (ap (λ parts. "" ∷ parts) (split_path-append s t))
  | inr other ↦
      rw (append.cons c s ("." ++ t), other, split_path-append s t)
        (push_char-joined c (split_path s) (split_path t) (split_path-IsSplit s))
]

point_first : (t : String) → split_path ("." ++ t) ≡ "" ∷ split_path t
unfolding split_path
point_first t = rw (append.cons "." "" t, append.nil t) refl

-- A text without a point.
abbrev pub is_plain : String → Bool
is_plain s = all (λ c. not (eqb c b'.')) (codes s)

split_path-plain : (s : String) → is_plain s ≡ true → split_path s ≡ s ∷ []
unfolding split_path
split_path-plain String.[] h = refl
split_path-plain (String.◌∷◌ c s) h = elim (Bool-cases (eqb (code c) b'.')) [
  | inl point ↦
      let no : not true && is_plain s ≡ true = subst (λ b. not b && is_plain s ≡ true) point h in cc
  | inr other ↦
      let rest : is_plain s ≡ true = subst (λ b. not b && is_plain s ≡ true) other h in
      rw (other, split_path-plain s rest) refl
]

-- What JSON, for a payload, base64url and the comparison of bytes promise.
pub record IsLawful {Bytes : Type 0} (codec : Codec Bytes) (payload : Value) : Type 0 where
  pub parsed : codec.parse (codec.stringify payload) ≡ some payload
  pub decoded : codec.text (codec.utf8 (codec.stringify payload)) ≡ codec.stringify payload
  pub bytes : (b : Bytes) → codec.from_base64url (codec.to_base64url b) ≡ b
  pub plain : (b : Bytes) → is_plain (codec.to_base64url b) ≡ true
  pub same : (b : Bytes) → codec.same_bytes b b ≡ true
  pub some_json : codec.to_base64url (codec.utf8 (codec.stringify payload)) ≢ ""
  pub some_signature : (s : String) → codec.to_base64url (codec.hmac s) ≢ ""

nonempty_test : {s : String} → s ≢ "" → (s == "") ≡ false
nonempty_test {s} some_text = elim (Bool-cases (s == "")) [
  | inl none_of ↦ absurd (some_text ((eq_iff s "").0 none_of))
  | inr is ↦ is
]

same_text : (s : String) → (s == s) ≡ true
same_text s = (eq_iff s s).1 refl

all_four : (a b c d : Bool) → a ≡ true → (b && c) ≡ true → d ≡ true → (a && b && c && d) ≡ true
all_four a b c d h k l = ground arith

is_later-num :
    (now bits : ℕ) {expires : ℕ}
    → natural_of bits ≡ some expires
    → now < expires
    → is_later now (num bits) ≡ true
unfolding is_later
is_later-num now bits exact before = ap (is_behind now) exact ∙ lt→ltb now _ before

valid-has_properties :
    (issuer : String) (now : ℕ) (v : Value)
    → is_valid_payload issuer now v ≡ true
    → has_properties v ≡ true
unfolding is_valid_payload property
valid-has_properties issuer now undefined h = cc
valid-has_properties issuer now null h = cc
valid-has_properties issuer now _ h = refl

module _ {Bytes : Type 0} (codec : Codec Bytes) (issuer : String) where
  check_payload-valid :
      (now : ℕ) (body : String) (payload : Value)
      → (codec.to_base64url (codec.from_base64url body) == body) ≡ true
      → is_valid_payload issuer now payload ≡ true
      → check_payload codec issuer now body (some payload) ≡ ok payload
  unfolding check_payload
  check_payload-valid now body payload canonical valid =
      rw (canonical, valid-has_properties issuer now payload valid, valid) refl

  -- A signed body is taken for what its payload says.
  verify_parts-sign :
      (now : ℕ) (payload : Value)
      → IsLawful codec payload
      → is_valid_payload issuer now payload ≡ true
      → verify_parts codec issuer now (split_path (sign codec issuer payload)) ≡ ok payload
  unfolding verify_parts sign is_signed check_payload
  verify_parts-sign now payload lawful valid =
      let body : String = codec.to_base64url (codec.utf8 (codec.stringify payload)) in
      let signature : String = codec.to_base64url (codec.hmac body) in
      let parts : split_path (body ++ "." ++ signature) ≡ body ∷ signature ∷ [] =
        split_path-append body signature
        ∙ rw (split_path-plain body (lawful.plain _), split_path-plain signature (lawful.plain _))
            refl in
      rw
        (
          parts,
          nonempty_test (lawful.some_json),
          nonempty_test (lawful.some_signature body),
          lawful.bytes (codec.hmac body),
          lawful.bytes (codec.utf8 (codec.stringify payload)),
          same_text signature,
          lawful.same (codec.hmac body),
          lawful.decoded,
          lawful.parsed,
        )
        (check_payload-valid now body payload
          (ap (λ t. t == body) (ap codec.to_base64url (lawful.bytes _)) ∙ same_text body) valid)

  payload-valid :
      (subject project role : Value) (entitlements : List String) (now expires later : ℕ)
      (uuid : String)
      → (truthy subject && truthy project) ≡ true
      → natural_of (double_of (now + expires)) ≡ some (now + expires)
      → later < now + expires
      → is_valid_payload issuer later
          (payload_of issuer subject project role entitlements now expires uuid)
        ≡ true
  unfolding is_valid_payload is_later property get_field
  payload-valid subject project role entitlements now expires later uuid named exact before =
      all_four (is_text issuer (str issuer)) (truthy subject) (truthy project)
        (is_later later (num (double_of (now + expires)))) (same_text issuer) named
        (is_later-num later (double_of (now + expires)) exact before)

  -- A token that was issued is verified before it expires, and gives the payload that it was issued
  -- for: if the codec keeps its promises for it, the double of the expiry is exact, and the token
  -- is not too long.
  pub verify-issue :
      (subject project role : Value) (entitlements : List String) (now expires later : ℕ)
      (uuid token : String)
      → IsLawful codec (payload_of issuer subject project role entitlements now expires uuid)
      → natural_of (double_of (now + expires)) ≡ some (now + expires)
      → later < now + expires
      → issue codec issuer subject project role entitlements now expires uuid ≡ ok token
      → leb (utf16_length (codes token)) 8192 ≡ true
      → verify codec issuer later (str token)
        ≡ ok (payload_of issuer subject project role entitlements now expires uuid)
  unfolding verify issue
  verify-issue subject project role entitlements now expires later uuid token lawful exact before
        issued short =
      let payload = payload_of issuer subject project role entitlements now expires uuid in
      let (named, made) = require-eq-ok (truthy subject && truthy project) type_error _ issued in
      let is_token : token ≡ sign codec issuer payload = sym (ok-injective made) in
      rw short (
        rw is_token (
          verify_parts-sign later payload lawful (
            payload-valid subject project role entitlements now expires later uuid named exact
              before)))

  -- Behind two points anything may be added to a token: what the longer one is verified to is what
  -- the token is, if both are short enough and the token is of two parts.
  pub verify-extended :
      (now : ℕ) (token extra body signature : String)
      → split_path token ≡ body ∷ signature ∷ []
      → leb (utf16_length (codes token)) 8192 ≡ true
      → leb (utf16_length (codes (token ++ "." ++ "." ++ extra))) 8192 ≡ true
      → verify codec issuer now (str (token ++ "." ++ "." ++ extra))
        ≡ verify codec issuer now (str token)
  unfolding verify verify_parts
  verify-extended now token extra body signature parts short short' =
      let longer : split_path (token ++ "." ++ "." ++ extra)
          ≡ body ∷ signature ∷ "" ∷ split_path extra =
        split_path-append token ("." ++ extra) ∙ rw (parts, point_first extra) refl in
      rw (short, short', longer, parts) refl
