-- ===== src/Document/Update/Setting.antt =====
-- What $set leaves (src/document.js: setMutable, applyDocumentUpdate, matchesDocument).
use syncio.Base.{
  ◌≡◌, refl, sym, ap, ◌∙◌, String, Bool, true, false, not, some, List, [], ◌∷◌, ok, type_error,
  id_changed, >>=-eq-ok, require-eq-ok, all, eqb, ◌==◌, eq_iff, Bool-cases, inl, inr, ◌||◌,
}
use Prim.Native.Char.{code}
use syncio.Json.{Value, obj, Fields, end, field, get_field}
use syncio.Document.Runtime.{Runtime, strict_equal}
use syncio.Document.Path.{read_direct, resolve_values, set_mutable, split_path, get_path}
use syncio.Document.Path.Reading.{
  IsPlain, read_direct-set_parts, resolve_values-set_parts, read_direct-set_parts-Apart,
  set_parts_twice, Apart,
}
use syncio.Document.Match.{
  is_operator, has_operator, query_key, path_key, equal_mongo_like, plain_condition, matches,
  matches_entry, is_array,
}
use syncio.Document.Update.{
  read_path, apply_document_update, apply_operators, apply_operator, each_entry, update_operator,
  update_step, only_operators, is_undefined,
}

-- Splitting a text gives at least one part.
pub split_path-cons :
    (s : String) → (part : String) × (parts : List String) × (split_path s ≡ part ∷ parts)
unfolding split_path
split_path-cons String.[] = ("", [], refl)
split_path-cons (String.◌∷◌ c s) =
    let (part, parts, rest) = split_path-cons s in
    elim (Bool-cases (eqb (code c) b'.')) [
      | inl dot ↦ ("", part ∷ parts, rw (dot, rest))
      | inr letter ↦ (String.◌∷◌ c part, parts, rw (letter, rest))
    ]

-- What a successful write through a path leaves.
pub record IsWritten (path : String) (v : Value) (fs gs : Fields) : Type 0 where
  pub reads : read_path path gs ≡ some v
  pub found : resolve_values (obj gs) (split_path path) ≡ v ∷ []
  pub kept :
      (qs : List String)
      → Apart (split_path path) qs
      → read_direct qs (obj gs) ≡ read_direct qs (obj fs)
  pub again : set_mutable path v gs ≡ ok gs

-- A successful write through a path without a part `__proto__` is read there, is all that a query finds
-- there, leaves what lies on every path that parts from it, and changes nothing when it is made again.
pub set_mutable-IsWritten :
    (path : String) (v : Value) (fs gs : Fields)
    → IsPlain (split_path path)
    → set_mutable path v fs ≡ ok gs
    → IsWritten path v fs gs
unfolding set_mutable
set_mutable-IsWritten path v fs gs plain h =
    let (good, run) =
      require-eq-ok (all (λ part. not (part == "")) (split_path path)) type_error _ h in
    let (part, parts, split) = split_path-cons path in
    let first = rw split at run in
    let first_plain = rw split at plain in
    record {
      reads = rw split (read_direct-set_parts part parts v fs gs first_plain first);
      found = rw split (resolve_values-set_parts part parts v fs gs first_plain first);
      kept = λ qs apart. read_direct-set_parts-Apart (split_path path) qs v fs gs apart plain run;
      again = rw (good, set_mutable) (set_parts_twice (split_path path) v fs gs plain run);
    }

-- The update and the query with one path.
abbrev pub set_update : String → Value → Value
set_update path v = obj (field "$set" (obj (field path v end)) end)

abbrev pub path_query : String → Value → Value
path_query path v = obj (field path v end)

other_text : (s t : String) → is_operator s ≡ false → is_operator t ≡ true → (s == t) ≡ false
other_text s t plain operator = elim (Bool-cases (s == t)) [
  | inr other ↦ other
  | inl same ↦
      let equal : false ≡ true = sym plain ∙ ap is_operator ((eq_iff s t).0 same) ∙ operator in cc
]

pub query_key-path : (path : String) → is_operator path ≡ false → query_key path ≡ path_key
unfolding query_key is_operator
query_key-path path h = rw (
  other_text path "$and" h refl,
  other_text path "$or" h refl,
  other_text path "$nor" h refl,
  other_text path "$not" h refl,
  h,
)

-- Whether matchesCondition takes a condition for operators.
abbrev pub is_condition : Value → Bool
is_condition (obj fs) = has_operator fs
is_condition _ = false

module _ (rt : Runtime) where
  apply_set :
      (path : String) (v : Value) (fs gs : Fields)
      → apply_document_update rt (obj fs) (set_update path v) ≡ ok gs
      → set_mutable path v fs ≡ ok gs
  unfolding apply_document_update apply_operators apply_operator each_entry update_step
      update_operator has_operator only_operators
  apply_set path v fs gs h =
      let update : Fields = field "$set" (obj (field path v end)) end in
      let (result, ran, h₁) = >>=-eq-ok (apply_operators rt update fs) _ h in
      let (_, done) =
        require-eq-ok
          (is_undefined (get_field "id" fs)
            || strict_equal (get_field "id" result) (get_field "id" fs))
          id_changed _ h₁ in
      let (next, stepped, last) =
        >>=-eq-ok (apply_operator rt "$set" (obj (field path v end)) fs) _ ran in
      let (written, wrote, last') = >>=-eq-ok (set_mutable path v fs) _ stepped in
      wrote ∙ last' ∙ last ∙ done

  matches_entry-plain :
      (document : Value) (path : String) (values : List Value) (c : Value)
      → get_path document path ≡ ok values
      → is_condition c ≡ false
      → matches_entry rt document path path_key c ≡ ok (plain_condition rt values c)
  unfolding matches
  matches_entry-plain document path values (obj fs) found h = rw (found, h)
  matches_entry-plain document path values _ found h = rw found

  plain_condition_self :
      (v : Value) → rt.deep_equal v v ≡ true → plain_condition rt (v ∷ []) v ≡ true
  unfolding plain_condition equal_mongo_like
  plain_condition_self v same = elim (Bool-cases (is_array v)) [
    | inl array ↦ rw (array, same)
    | inr other ↦ rw (other, same)
  ]

  -- After a successful $set of a path that is no operator, not empty and without a part `__proto__`, the document matches the
  -- query that asks for that value there, if the value equals itself and is no object of operators.
  pub matches-set_update :
      (path : String) (v : Value) (fs gs : Fields)
      → is_operator path ≡ false
      → (path == "") ≡ false
      → IsPlain (split_path path)
      → rt.deep_equal v v ≡ true
      → is_condition v ≡ false
      → apply_document_update rt (obj fs) (set_update path v) ≡ ok gs
      → matches rt (obj gs) (path_query path v) ≡ ok true
  unfolding matches get_path
  matches-set_update path v fs gs named nonempty plain same value h =
      let written = set_mutable-IsWritten path v fs gs plain (apply_set path v fs gs h) in
      let found : get_path (obj gs) path ≡ ok (v ∷ []) = rw (nonempty, get_path, written.found) in
      let held = matches_entry-plain (obj gs) path (v ∷ []) v found value in
      rw (query_key-path path named, held, plain_condition_self v same)
