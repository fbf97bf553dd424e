-- ===== src/Document/Update.antt =====
-- src/document.js: applyDocumentUpdate and its operators.
pub mod Setting
pub mod Identity
pub mod Arrays
use syncio.Base.{
  ℕ, String, Bool, true, false, not, ◌&&◌, ◌||◌, Option, none, some, List, [], ◌∷◌, ◌++◌, Error,
  Result, ok, err, type_error, id_changed, ◌>>=◌, ◌>>◌, require, ◌==◌, any, if◌then◌else◌,
}
use syncio.Json.{
  Value, undefined, null, num, str, arr, obj, Items, nil, cons, Fields, end, field, get_field,
  set_field, is_finite,
}
use syncio.Document.Runtime.{Runtime, strict_equal}
use syncio.Document.Path.{own, split_path, read_direct, set_mutable, delete_path}
use syncio.Document.Match.{
  is_operator, has_operator, items_list, equal_mongo_like, matches_fields, matches_condition,
}

pub data UpdateOperator : Type 0 where
  set_op unset_op inc_op mul_op min_op max_op push_op add_to_set_op pull_op rename_op :
      UpdateOperator
  unsupported_op : UpdateOperator

unfoldable pub update_operator : String → UpdateOperator
update_operator key =
    if key == "$set"
    then set_op
    else if key == "$unset"
    then unset_op
    else if key == "$inc"
    then inc_op
    else if key == "$mul"
    then mul_op
    else if key == "$min"
    then min_op
    else if key == "$max"
    then max_op
    else if key == "$push"
    then push_op
    else if key == "$addToSet"
    then add_to_set_op
    else if key == "$pull"
    then pull_op
    else if key == "$rename"
    then rename_op
    else unsupported_op

abbrev pub read_path : String → Fields → Option Value
read_path path fs = read_direct (split_path path) (obj fs)

-- A finite number, or an error.
abbrev pub finite_number : Value → Result ℕ
finite_number (num n) = if is_finite n then ok n else err type_error
finite_number _ = err type_error

abbrev pub number_or_zero : Option Value → Result ℕ
number_or_zero none = ok 0
number_or_zero (some v) = finite_number v

unfoldable pub numeric_update : (ℕ → ℕ → ℕ) → String → Value → Fields → Result Fields
numeric_update operation path amount fs = do
  n ← finite_number amount
  current ← number_or_zero (read_path path fs)
  set_mutable path (num (operation current n)) fs

-- `current === undefined || better(candidate, current)`
unfoldable pub is_better : (Value → Value → Bool) → Value → Option Value → Bool
is_better better candidate none = true
is_better better candidate (some undefined) = true
is_better better candidate (some v) = better candidate v

unfoldable pub compare_update : (Value → Value → Bool) → String → Value → Fields → Result Fields
compare_update better path candidate fs =
    if is_better better candidate (read_path path fs) then set_mutable path candidate fs else ok fs

unfoldable pub items_of : List Value → Items
items_of [] = nil
items_of (x ∷ xs) = cons x (items_of xs)

-- The array at a path; one that is missing is empty.
abbrev pub array_or_empty : Option Value → Result (List Value)
array_or_empty none = ok []
array_or_empty (some (arr xs)) = ok (items_list xs)
array_or_empty (some _) = err type_error

-- `value.$each` if it is an array, and otherwise the value itself.
unfoldable pub added_values : Value → List Value
unfolding items_list
added_values (obj fs) = elim (own "$each" fs) [ some (arr xs) ↦ items_list xs | _ ↦ obj fs ∷ [] ]
added_values v = v ∷ []

-- `$rename` tests its target before anything else.
abbrev pub target_path : Value → Result String
target_path (str to) = if to == "" then err type_error else ok to
target_path _ = err type_error

unfoldable pub rename_path : String → Value → Fields → Result Fields
rename_path from target fs = do
  to ← target_path target
  require (not (from == "id" || to == "id")) id_changed
  elim (read_path from fs) [
    | none ↦ ok fs
    | some v ↦ do without ← delete_path from fs; set_mutable to v without
  ]

-- A loop over the entries of an operator's object, and one over their names.
unfoldable pub each_entry :
    (String → Value → Fields → Result Fields) → Fields → Fields → Result Fields
each_entry step end fs = ok fs
each_entry step (field key v more) fs = do next ← step key v fs; each_entry step more next

module _ (rt : Runtime) where
  unfoldable pub add_unique : List Value → List Value → List Value
  add_unique array [] = array
  add_unique array (item ∷ items) =
      add_unique (if any (λ x. rt.deep_equal x item) array then array else array ++ item ∷ []) items

  unfoldable pub array_update : Bool → String → Value → Fields → Result Fields
  unfolding add_unique added_values items_of
  array_update unique path value fs = do
    array ← array_or_empty (read_path path fs)
    let items = added_values value
    set_mutable path (arr (items_of (if unique then add_unique array items else array ++ items))) fs

  -- pullMatches: an item that is no plain object is compared as a whole.
  unfoldable pub pull_matches : Value → Value → Result Bool
  pull_matches condition item = elim condition [
    | obj cs ↦ if has_operator cs then matches_condition rt (item ∷ []) (obj cs) else elim item [
      | obj fs ↦ matches_fields rt (obj fs) cs
      | other ↦ ok (equal_mongo_like rt other (obj cs))
    ]
    | plain ↦ ok (equal_mongo_like rt item plain)
  ]

  unfoldable pub retain : Value → List Value → Result (List Value)
  unfolding pull_matches
  retain condition [] = ok []
  retain condition (item ∷ items) = do
    pulled ← pull_matches condition item
    rest ← retain condition items
    ok (if pulled then rest else item ∷ rest)

  unfoldable pub pull_update : String → Value → Fields → Result Fields
  unfolding retain items_of
  pull_update path condition fs = elim (read_path path fs) [
    | none ↦ ok fs
    | some (arr xs) ↦ do
      retained ← retain condition (items_list xs)
      set_mutable path (arr (items_of retained)) fs
    | some _ ↦ err type_error
  ]

  unfoldable pub update_step : UpdateOperator → String → Value → Fields → Result Fields
  unfolding numeric_update compare_update array_update pull_update rename_path
  update_step set_op = set_mutable
  update_step unset_op = λ path v fs. delete_path path fs
  update_step inc_op = numeric_update rt.add
  update_step mul_op = numeric_update rt.multiply
  update_step min_op = compare_update rt.less
  update_step max_op = compare_update (λ candidate current. rt.less current candidate)
  update_step push_op = array_update false
  update_step add_to_set_op = array_update true
  update_step pull_op = pull_update
  update_step rename_op = rename_path
  update_step unsupported_op = λ path v fs. err type_error

  -- One operator with its object; an operator that is not known throws, whatever its object holds.
  unfoldable pub apply_operator : String → Value → Fields → Result Fields
  unfolding update_step each_entry
  apply_operator key (obj changes) fs = elim (update_operator key) [
    | unsupported_op ↦ err type_error
    | operator ↦ each_entry (update_step operator) changes fs
  ]
  apply_operator key _ fs = err type_error

  unfoldable pub apply_operators : Fields → Fields → Result Fields
  unfolding apply_operator
  apply_operators end fs = ok fs
  apply_operators (field key changes more) fs = do
    next ← apply_operator key changes fs
    apply_operators more next

-- `keys.every((key) => key.startsWith('$'))`
unfoldable pub only_operators : Fields → Bool
only_operators end = true
only_operators (field k v fs) = is_operator k && only_operators fs

abbrev pub is_undefined : Value → Bool
is_undefined undefined = true
is_undefined _ = false

-- `document.id ?? update.id`
abbrev pub id_of_either : Value → Value → Value
id_of_either undefined given = given
id_of_either null given = given
id_of_either id given = id

-- A replacement may have the document's identity or none.
unfoldable pub replace_document : Fields → Fields → Result Fields
replace_document document update = do
  let old = get_field "id" document
  let new = get_field "id" update
  require (is_undefined new || is_undefined old || strict_equal new old) id_changed
  ok (set_field "id" (id_of_either old new) update)

module _ (rt : Runtime) where
  unfoldable pub apply_document_update : Value → Value → Result Fields
  unfolding apply_operators replace_document
  apply_document_update (obj document) (obj update) =
      if not (has_operator update) then replace_document document update else (do
        require (only_operators update) type_error
        result ← apply_operators rt update document
        require
            (is_undefined (get_field "id" document)
              || strict_equal (get_field "id" result) (get_field "id" document))
            id_changed
        ok result)
  apply_document_update _ _ = err type_error
