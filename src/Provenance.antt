-- ===== src/Provenance.antt =====
-- src/write-provenance.js: the provenance of a write. The ambient context is the argument of the work
-- that runs in it.
use syncio.Base.{
  ℕ, String, Bool, true, false, ◌&&◌, ◌||◌, List, [], ◌∷◌, all, leb, eqb, ◌==◌, Result, ok, err,
  type_error, ◌>>=◌, ◌>>◌, require, if◌then◌else◌, refl, ◌≡◌, length,
}
use syncio.Document.Match.{is_object}
use syncio.Json.{
  Value, undefined, null, bool, num, str, obj, exotic, Fields, end, field, set_field, property,
  codes, utf16_length,
}

abbrev key_char : ℕ → Bool
key_char c =
    leb b'A' c && leb c b'Z'
    || leb b'a' c && leb c b'z'
    || leb b'0' c && leb c b'9'
    || eqb c b'_'
    || eqb c b'.'
    || eqb c b'-'

-- /^[A-Za-z0-9_.:@/-]{1,256}$/
abbrev reference_char : ℕ → Bool
reference_char c = key_char c || eqb c b':' || eqb c b'@' || eqb c b'/'

unfoldable pub is_reference : List ℕ → Bool
is_reference cs = leb 1 (length cs) && leb (length cs) 256 && all reference_char cs

-- /^[A-Za-z0-9_.-]{1,64}$/
unfoldable pub is_metadata_key : List ℕ → Bool
is_metadata_key cs = leb 1 (length cs) && leb (length cs) 64 && all key_char cs

abbrev reference_keys : List String
reference_keys =
    "actorId" ∷ "actorKind" ∷ "executionId" ∷ "requestId" ∷ "authorityRef" ∷ "causeRef" ∷ []

-- What a reference adds: nothing where it is absent, null or empty.
unfoldable pub add_reference : String → Value → Fields → Result Fields
unfolding is_reference set_field
add_reference key undefined fs = ok fs
add_reference key null fs = ok fs
add_reference key (str s) fs =
    if s == ""
    then ok fs
    else if is_reference (codes s)
    then ok (set_field key (str s) fs)
    else err type_error
add_reference key _ fs = err type_error

unfoldable pub add_references : List String → Value → Fields → Result Fields
unfolding add_reference property
add_references [] value fs = ok fs
add_references (key ∷ keys) value fs = do
  next ← add_reference key (property key value) fs
  add_references keys value next

unfoldable pub valid_metadata_value : Value → Bool
valid_metadata_value null = true
valid_metadata_value (bool b) = true
valid_metadata_value (num n) = true
valid_metadata_value (str s) = leb (utf16_length (codes s)) 512
valid_metadata_value _ = false

unfoldable pub valid_metadata : Fields → Bool
unfolding is_metadata_key valid_metadata_value
valid_metadata end = true
valid_metadata (field key v fs) =
    is_metadata_key (codes key) && valid_metadata_value v && valid_metadata fs

unfoldable pub entries_count : Fields → ℕ
entries_count end = 0
entries_count (field key v fs) = ℕ.suc (entries_count fs)

unfoldable pub add_metadata : Value → Fields → Result Fields
unfolding entries_count valid_metadata set_field
add_metadata undefined fs = ok fs
add_metadata (obj entries) fs = do
  require (leb (entries_count entries) 16) type_error
  require (valid_metadata entries) type_error
  ok (set_field "metadata" (obj entries) fs)
add_metadata (exotic true) fs = ok (set_field "metadata" (obj end) fs)
add_metadata _ fs = err type_error

abbrev pub or_nothing : Fields → Value
or_nothing end = null
or_nothing fs = obj fs

unfoldable pub normalize_write_provenance : Value → Result Value
unfolding add_references add_metadata property
normalize_write_provenance undefined = ok null
normalize_write_provenance null = ok null
normalize_write_provenance (obj value) = do
  references ← add_references reference_keys (obj value) end
  fs ← add_metadata (property "metadata" (obj value)) references
  ok (or_nothing fs)
normalize_write_provenance (exotic true) = ok null
normalize_write_provenance _ = err type_error

-- Work that runs with a provenance finds the normal form in its context.
unfoldable pub run_with_write_provenance : {A : Type 0} → Value → (Value → Result A) → Result A
unfolding normalize_write_provenance
run_with_write_provenance provenance work = do
  normalized ← normalize_write_provenance provenance
  work normalized

-- `values.find((value) => typeof value === 'string' && value.length > 0)`
unfoldable pub first_string : List Value → Value
first_string [] = undefined
first_string (str s ∷ vs) = let rest = first_string vs in if s == "" then rest else str s
first_string (_ ∷ vs) = first_string vs

abbrev pub text_or_undefined : Value → Value
text_or_undefined (str s) = str s
text_or_undefined _ = undefined

-- `req?.headers?.[name]`
abbrev pub header : String → Value → Value
header name req = property name (property "headers" req)

unfoldable pub provenance_from_request : Value → Value → Value → Result Value
unfolding normalize_write_provenance first_string property
provenance_from_request user request_id req =
    let of = λ (key : String). property key user in
    if is_object user
    then normalize_write_provenance (
        obj (
          field "actorId"
            (first_string (of "sub" ∷ of "id" ∷ of "userId" ∷ of "principalId" ∷ of "subject" ∷ []))
            (field "actorKind" (first_string (of "kind" ∷ of "type" ∷ of "role" ∷ [])) (
              field "executionId" (text_or_undefined (header "x-syncio-execution-id" req)) (
                field "requestId" request_id (
                  field "authorityRef" (text_or_undefined (header "x-syncio-authority-ref" req))
                    end))))))
    else normalize_write_provenance (obj (field "requestId" request_id end))

normal_forms :
    (normalize_write_provenance (
        obj (field "actorId" (str "u:1") (field "requestId" (str "") (field "more" (str "x") end))))
      ≡ ok (obj (field "actorId" (str "u:1") end)))
    × (normalize_write_provenance (obj (field "requestId" null end)) ≡ ok null)
    × (normalize_write_provenance (obj (field "actorId" (str "a b") end)) ≡ err type_error)
    × (normalize_write_provenance (obj (field "metadata" (obj (field "k" (obj end) end)) end))
        ≡ err type_error)
    × (provenance_from_request (obj (field "id" (str "u") end)) undefined undefined
        ≡ ok (obj (field "actorId" (str "u") end)))
unfolding normalize_write_provenance provenance_from_request
normal_forms = (refl, refl, refl, refl, refl)
