-- ===== src/Indexed/Catalog/Normal.antt =====
-- Definitions that were normalised (src/indexed.js: normalizeFields, normalizeDefinition).
use syncio.Base.{
  ◌≡◌, refl, ap, subst, ◌≤◌, String, Bool, true, false, ◌&&◌, List, [], ◌∷◌, ok, err, >>=-eq-ok,
  require-eq-ok, ok-injective, all, map, length, leb, le→leb, arith, type_error, if◌then◌else◌,
  Bool-cases, inl, inr, suc,
}
use syncio.Json.{Value, str, obj, get_field}
use syncio.Document.Match.{items_list}
use syncio.Document.Update.{items_of}
use syncio.Indexed.{Definition}
use syncio.Indexed.Catalog.{
  valid_index_name, validate_index_name, validate_names, all_distinct, fields_list,
  normalize_index_fields, normalize_definition, definition_value, or_value, join_names,
}

-- From 1 to 16 fields, all different, and good names.
pub record IsNormal (d : Definition) : Type 0 where
  pub some_fields : 1 ≤ length d.fields
  pub few_fields : length d.fields ≤ 16
  pub distinct : all_distinct d.fields ≡ true
  pub good_fields : all valid_index_name d.fields ≡ true
  pub good_name : valid_index_name d.name ≡ true

-- What the check of the field names leaves.
record AreNormal (fields : List String) : Type 0 where
  some_fields : 1 ≤ length fields
  few_fields : length fields ≤ 16
  distinct : all_distinct fields ≡ true
  good_fields : all valid_index_name fields ≡ true

validate_index_name-good :
    (v : Value) {name : String} → validate_index_name v ≡ ok name → valid_index_name name ≡ true
unfolding validate_index_name
validate_index_name-good (str s) {name} h = elim (Bool-cases (valid_index_name s)) [
  | inl good ↦
      let same : s ≡ name =
        ok-injective (subst (λ b. (if b then ok s else err type_error) ≡ ok name) good h) in
      subst (λ n. valid_index_name n ≡ true) same good
  | inr bad ↦
      let no : err type_error ≡ ok name =
        subst (λ b. (if b then ok s else err type_error) ≡ ok name) bad h in
      cc
]
validate_index_name-good _ h = cc

validate_names-good :
    (vs : List Value) {names : List String}
    → validate_names vs ≡ ok names
    → (all valid_index_name names ≡ true) × (length names ≡ length vs)
unfolding validate_names
validate_names-good [] h = rw (← ok-injective h) (refl, refl)
validate_names-good (v ∷ vs) h =
    let (name, first, h₁) = >>=-eq-ok (validate_index_name v) _ h in
    let (names, rest, done) = >>=-eq-ok (validate_names vs) _ h₁ in
    let (good, long) = validate_names-good vs rest in
    rw (← ok-injective done, validate_index_name-good v first, good, long) (refl, refl)

normalize_index_fields-AreNormal :
    (v : Value) {fields : List String} → normalize_index_fields v ≡ ok fields → AreNormal fields
unfolding normalize_index_fields
normalize_index_fields-AreNormal v {fields} h =
    let (vs, _, h₁) = >>=-eq-ok (fields_list v) _ h in
    let (few, h₂) = require-eq-ok (leb 1 (length vs) && leb (length vs) 16) type_error _ h₁ in
    let (names, checked, h₃) = >>=-eq-ok (validate_names vs) _ h₂ in
    let (distinct, done) = require-eq-ok (all_distinct names) type_error _ h₃ in
    let (good, long) = validate_names-good vs checked in
    let same : names ≡ fields = ok-injective done in
    subst AreNormal same (record {
      some_fields = ground arith;
      few_fields = ground arith;
      distinct = distinct;
      good_fields = good;
    })

-- A definition that is accepted has from 1 to 16 fields, no two the same, and the names of its
-- fields and its own are good.
pub normalize_definition-IsNormal :
    (v : Value) {d : Definition} → normalize_definition v ≡ ok d → IsNormal d
unfolding normalize_definition
normalize_definition-IsNormal (obj fs) {d} h =
    let (fields, normal, h₁) =
      >>=-eq-ok (normalize_index_fields (or_value (get_field "fields" fs) (get_field "field" fs))) _
        h in
    let (name, named, done) =
      >>=-eq-ok (validate_index_name (or_value (get_field "name" fs) (str (join_names fields)))) _
        h₁ in
    let are =
      normalize_index_fields-AreNormal (or_value (get_field "fields" fs) (get_field "field" fs))
        normal in
    subst IsNormal (ok-injective done) (record {
      some_fields = are.some_fields;
      few_fields = are.few_fields;
      distinct = are.distinct;
      good_fields = are.good_fields;
      good_name =
          validate_index_name-good (or_value (get_field "name" fs) (str (join_names fields))) named;
    })
normalize_definition-IsNormal _ h = cc

items_list-items_of : (vs : List Value) → items_list (items_of vs) ≡ vs
unfolding items_list items_of
items_list-items_of [] = refl
items_list-items_of (v ∷ vs) = ap (λ xs. v ∷ xs) (items_list-items_of vs)

both : (a b : Bool) → (a && b) ≡ true → (a ≡ true) × (b ≡ true)
both true true h = (refl, refl)
both true false h = cc
both false b h = cc

validate_names-map :
    (names : List String)
    → all valid_index_name names ≡ true
    → validate_names (map str names) ≡ ok names
unfolding validate_names validate_index_name
validate_names-map [] h = refl
validate_names-map (x ∷ xs) h =
    let (good, rest) = both (valid_index_name x) (all valid_index_name xs) h in
    rw (good, validate_names-map xs rest) refl

length-map-str : (names : List String) → length (map str names) ≡ length names
length-map-str [] = refl
length-map-str (x ∷ xs) = ap suc (length-map-str xs)

-- A definition that was accepted is read back from the catalog file as it was.
pub normalize_definition-definition_value :
    (d : Definition) → IsNormal d → normalize_definition (definition_value d) ≡ ok d
unfolding normalize_definition definition_value normalize_index_fields fields_list get_field
    validate_index_name
normalize_definition-definition_value d normal =
    rw
      (
        items_list-items_of (map str d.fields),
        length-map-str d.fields,
        le→leb 1 (length d.fields) normal.some_fields,
        le→leb (length d.fields) 16 normal.few_fields,
        validate_names-map d.fields normal.good_fields,
        normal.distinct,
        normal.good_name,
      )
      refl
