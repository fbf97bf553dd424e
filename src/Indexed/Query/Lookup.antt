-- ===== src/Indexed/Query/Lookup.antt =====
-- What a lookup in an index gives, as against the test that a query makes of each record
-- (src/indexed.js: query; src/document.js: matchesDocument).
use syncio.Base.{
  ◌≡◌, ◌≢◌, ◌↔◌, refl, sym, ap, ◌∙◌, String, Bool, true, false, ◌||◌, some, List, [], ◌∷◌, Result,
  ok, any, Bool-cases, inl, inr, ◌==◌, eq_iff,
}
use syncio.Base.Maps.{get}
use syncio.Json.{Value, str, arr, obj, Items, end, field, json_compatible}
use syncio.Document.Runtime.{Runtime}
use syncio.Document.Path.{get_path, resolve_values, split_path}
use syncio.Document.Match.{
  matches, is_operator, is_array, items_list, plain_condition, equal_mongo_like,
}
use syncio.Document.Update.Setting.{query_key-path}
use syncio.Database.State.{Collection}
use syncio.Indexed.{Definition, Index, find, has_id, entry_key, field_values, first_value}
use syncio.Indexed.Listed.{lists}
use syncio.Indexed.Kept.{IsListed}

settled : (b : Bool) → elim b as (λ x. Result Bool) [ false ↦ ok false | true ↦ ok true ] ≡ ok b
settled true = refl
settled false = refl

or_false : (b : Bool) → (b || false) ≡ b
or_false true = refl
or_false false = refl

same_tests : (a b : Bool) → (a ≡ true → b ≡ true) → (b ≡ true → a ≡ true) → a ≡ b
same_tests true b h k = sym (h refl)
same_tests false true h k = k refl
same_tests false false h k = refl

differ : {s t : String} → s ≢ t → (s == t) ≡ false
differ {s} {t} apart = elim (Bool-cases (s == t)) [
  | inl same ↦ absurd (apart ((eq_iff s t).0 same))
  | inr other ↦ other
]

-- An index of one field, that need not have a value.
abbrev pub on_field : String → Bool → Definition
on_field path unique = record { name = path; fields = path ∷ []; unique = unique; sparse = false }

module _ (rt : Runtime) (stringify : List Value → String) where
  -- The test of a condition that is a text, on what its path finds.
  matches-text :
      (document : Value) (path s : String) (vs : List Value)
      → is_operator path ≡ false
      → (path == "") ≡ false
      → resolve_values document (split_path path) ≡ vs
      → matches rt document (obj (field path (str s) end)) ≡ ok (plain_condition rt vs (str s))
  unfolding matches get_path
  matches-text document path s vs plain nonempty found =
      rw (query_key-path path plain, nonempty, found)
        (settled (any (λ v. equal_mongo_like rt v (str s)) vs))

  lookup-filed :
      (c : Collection) (index : Index) (id path : String) (unique : Bool) (document v : Value)
      (vs values : List Value)
      → IsListed stringify (on_field path unique) c index
      → get id c ≡ some document
      → resolve_values document (split_path path) ≡ v ∷ vs
      → has_id (str id) (find stringify values index) ≡ (stringify (v ∷ []) == stringify values)
  unfolding IsListed lists find entry_key field_values first_value
  lookup-filed c index id path unique document v vs values listed there found =
      listed (stringify values) id ∙ rw (there, found) refl

  -- With an index of one field that lists a collection, for a record that has just one value in
  -- that field, no array: its identity is found under a text exactly if the record matches the
  -- query that asks for that text, if a value that equals a text is that text, and values with the
  -- text's JSON are.
  pub find-iff-matches :
      (c : Collection) (index : Index) (id path s : String) (unique : Bool) (document v : Value)
      → ((u : Value) → rt.deep_equal u (str s) ≡ true ↔ (u ≡ str s))
      → ((u : Value)
          → json_compatible u ≡ true
          → stringify (u ∷ []) ≡ stringify (str s ∷ [])
          → u ≡ str s)
      → IsListed stringify (on_field path unique) c index
      → get id c ≡ some document
      → is_operator path ≡ false
      → (path == "") ≡ false
      → resolve_values document (split_path path) ≡ v ∷ []
      → is_array v ≡ false
      → json_compatible v ≡ true
      → matches rt document (obj (field path (str s) end))
        ≡ ok (has_id (str id) (find stringify (str s ∷ []) index))
  unfolding plain_condition equal_mongo_like
  find-iff-matches c index id path s unique document v law apart listed there plain nonempty found
        single json =
      let filed =
        lookup-filed c index id path unique document v [] (str s ∷ []) listed there found in
      let forward : rt.deep_equal v (str s) ≡ true
          → (stringify (v ∷ []) == stringify (str s ∷ [])) ≡ true =
        λ h. (eq_iff _ _).1 (ap (λ u. stringify (u ∷ [])) ((law v).0 h)) in
      let backward : (stringify (v ∷ []) == stringify (str s ∷ [])) ≡ true
          → rt.deep_equal v (str s) ≡ true =
        λ h. (law v).1 (apart v json ((eq_iff _ _).0 h)) in
      let alike : plain_condition rt (v ∷ []) (str s)
          ≡ (stringify (v ∷ []) == stringify (str s ∷ [])) =
        rw single (or_false (rt.deep_equal v (str s)) ∙ same_tests _ _ forward backward) in
      matches-text document path s (v ∷ []) plain nonempty found ∙ ap ok (alike ∙ sym filed)

  -- A record whose field is an array with the text among its items matches the query that asks for
  -- that text, and a lookup of the text in an index of the field does not find it, where the JSON
  -- of an array is not that of the text.
  pub find-misses :
      (c : Collection) (index : Index) (id path s : String) (unique : Bool) (document : Value)
      (xs : Items)
      → IsListed stringify (on_field path unique) c index
      → get id c ≡ some document
      → is_operator path ≡ false
      → (path == "") ≡ false
      → resolve_values document (split_path path) ≡ arr xs ∷ []
      → any (λ item. rt.deep_equal item (str s)) (items_list xs) ≡ true
      → stringify (arr xs ∷ []) ≢ stringify (str s ∷ [])
      → (matches rt document (obj (field path (str s) end)) ≡ ok true)
        × (has_id (str id) (find stringify (str s ∷ []) index) ≡ false)
  unfolding plain_condition equal_mongo_like
  find-misses c index id path s unique document xs listed there plain nonempty found held apart = (
    matches-text document path s (arr xs ∷ []) plain nonempty found ∙ rw held refl,
    lookup-filed c index id path unique document (arr xs) [] (str s ∷ []) listed there found
        ∙ differ apart,
  )
