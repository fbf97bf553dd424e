-- ===== src/Document/Match.antt =====
-- src/document.js: matchesDocument, matchesCondition, operatorPredicate and equalMongoLike.
pub mod Logic
use Prim.Native.Char.{code}
use syncio.Base.{
  ℕ, String, Bool, true, false, not, ◌&&◌, ◌||◌, Option, none, some, List, [], ◌∷◌, Result, ok, err,
  type_error, ◌>>=◌, ◌>>◌, require, eqb, ◌==◌, any, all, if◌then◌else◌,
}
use syncio.Json.{
  Value, undefined, null, bool, num, str, arr, obj, exotic, Items, nil, cons, Fields, end, field,
  truthy,
}
use syncio.Document.Runtime.{Runtime, double_of, number_equal}
use syncio.Document.Path.{get_path, items_length}

-- `key.startsWith('$')`
unfoldable pub is_operator : String → Bool
is_operator String.[] = false
is_operator (String.◌∷◌ c s) = eqb (code c) b'$'

unfoldable pub items_list : Items → List Value
items_list nil = []
items_list (cons x xs) = let rest = items_list xs in x ∷ rest

abbrev pub is_array : Value → Bool
is_array (arr xs) = true
is_array _ = false

-- `value && typeof value === 'object'`
abbrev pub is_object : Value → Bool
is_object (arr xs) = true
is_object (obj fs) = true
is_object (exotic b) = b
is_object _ = false

abbrev pub elements : Value → List Value
elements (arr xs) = items_list xs
elements _ = []

-- `values.some(test)` and `values.every(test)` for a test that may throw: it is not called any more
-- once the answer is known.
unfoldable pub some_of : (Value → Result Bool) → List Value → Result Bool
some_of test [] = ok false
some_of test (v ∷ vs) = do found ← test v; elim found [ true ↦ ok true | false ↦ some_of test vs ]

abbrev pub negate : Result Bool → Result Bool
negate r = r >>= λ b. ok (not b)

-- The keys of a query, and those of a condition.
pub data QueryKey : Type 0 where
  and_key or_key nor_key not_key unsupported_key path_key : QueryKey

unfoldable pub query_key : String → QueryKey
unfolding is_operator
query_key key =
    if key == "$and"
    then and_key
    else if key == "$or"
    then or_key
    else if key == "$nor"
    then nor_key
    else if key == "$not"
    then not_key
    else if is_operator key
    then unsupported_key
    else path_key

pub data Operator : Type 0 where
  exists_op not_op eq_op ne_op gt_op gte_op lt_op lte_op in_op nin_op size_op all_op : Operator
  elem_match_op unsupported_op : Operator

unfoldable pub operator_of : String → Operator
operator_of key =
    if key == "$exists"
    then exists_op
    else if key == "$not"
    then not_op
    else if key == "$eq"
    then eq_op
    else if key == "$ne"
    then ne_op
    else if key == "$gt"
    then gt_op
    else if key == "$gte"
    then gte_op
    else if key == "$lt"
    then lt_op
    else if key == "$lte"
    then lte_op
    else if key == "$in"
    then in_op
    else if key == "$nin"
    then nin_op
    else if key == "$size"
    then size_op
    else if key == "$all"
    then all_op
    else if key == "$elemMatch"
    then elem_match_op
    else unsupported_op

unfoldable pub has_operator : Fields → Bool
unfolding is_operator
has_operator end = false
has_operator (field k v fs) = is_operator k || has_operator fs

-- matchesDocument of a query that is no object; an absent one is an empty one.
unfoldable pub no_query : Value → Result Bool
no_query undefined = ok true
no_query _ = err type_error

-- `Array.isArray(value) && value.some((item) => item && typeof item === 'object' && test(item))`, for
-- some of the values.
unfoldable pub some_element : (Value → Result Bool) → List Value → Result Bool
unfolding some_of items_list
some_element test values =
    some_of
      (λ v.
        some_of (λ item. elim (is_object item) [ false ↦ ok false | true ↦ test item ])
          (elements v))
      values

module _ (rt : Runtime) where
  -- An array is like a value that is no array if one of its items is.
  unfoldable pub equal_mongo_like : Value → Value → Bool
  unfolding items_list
  equal_mongo_like actual expected =
      if is_array actual && not (is_array expected)
      then any (λ item. rt.deep_equal item expected) (elements actual)
      else rt.deep_equal actual expected

  unfoldable pub equals_any : List Value → Value → Bool
  unfolding equal_mongo_like
  equals_any candidates v = any (λ candidate. equal_mongo_like v candidate) candidates

  -- `value.length === expected`, of an array.
  unfoldable pub has_size : Value → Value → Bool
  unfolding items_list
  has_size (num n) (arr xs) = number_equal (double_of (items_length xs)) n
  has_size _ _ = false

  unfoldable pub has_all : List Value → Value → Bool
  unfolding equal_mongo_like
  has_all candidates v =
      is_array v
      && all (λ candidate. any (λ item. equal_mongo_like item candidate) (elements v)) candidates

  -- matchesCondition of a condition without operators.
  unfoldable pub plain_condition : List Value → Value → Bool
  unfolding equal_mongo_like
  plain_condition values condition = any (λ v. equal_mongo_like v condition) values

  -- Of matches_entry and condition_entry, the first argument says what the key is.
  unfoldable mutual
    unfolding items_list equal_mongo_like equals_any has_size has_all some_element plain_condition
        truthy

    pub matches : Value → Value → Result Bool
    matches document undefined = ok true
    matches document (obj fs) = matches_fields document fs
    matches document _ = err type_error

    pub matches_fields : Value → Fields → Result Bool
    matches_fields document end = ok true
    matches_fields document (field key condition fs) = do
      held ← matches_entry document key (query_key key) condition
      elim held [ false ↦ ok false | true ↦ matches_fields document fs ]

    pub matches_entry : Value → String → QueryKey → Value → Result Bool
    matches_entry document key and_key (arr xs) = every_matches document xs
    matches_entry document key and_key _ = ok false
    matches_entry document key or_key (arr xs) = some_matches document xs
    matches_entry document key or_key _ = ok false
    matches_entry document key nor_key (arr xs) = negate (some_matches document xs)
    matches_entry document key nor_key _ = ok false
    matches_entry document key not_key (obj fs) = negate (matches_fields document fs)
    matches_entry document key not_key _ = ok false
    matches_entry document key unsupported_key condition = err type_error
    matches_entry document key path_key (obj fs) = do
      values ← get_path document key
      elim (has_operator fs) [
        | true ↦ condition_fields values fs
        | false ↦ ok (plain_condition values (obj fs))
      ]
    matches_entry document key path_key condition = do
      values ← get_path document key
      ok (plain_condition values condition)

    pub every_matches : Value → Items → Result Bool
    every_matches document nil = ok true
    every_matches document (cons x xs) = do
      held ← matches document x
      elim held [ false ↦ ok false | true ↦ every_matches document xs ]

    pub some_matches : Value → Items → Result Bool
    some_matches document nil = ok false
    some_matches document (cons x xs) = do
      held ← matches document x
      elim held [ true ↦ ok true | false ↦ some_matches document xs ]

    pub condition_fields : List Value → Fields → Result Bool
    condition_fields values end = ok true
    condition_fields values (field key expected fs) = do
      held ← condition_entry values (operator_of key) expected
      elim held [ false ↦ ok false | true ↦ condition_fields values fs ]

    pub condition_entry : List Value → Operator → Value → Result Bool
    condition_entry [] exists_op expected = ok (not (truthy expected))
    condition_entry (v ∷ vs) exists_op expected = ok (truthy expected)
    condition_entry values not_op (obj fs) = negate (elim (has_operator fs) [
      | true ↦ condition_fields values fs
      | false ↦ ok (plain_condition values (obj fs))
    ])
    condition_entry values not_op expected = ok (not (plain_condition values expected))
    condition_entry values eq_op expected = ok (any (λ v. equal_mongo_like v expected) values)
    condition_entry values ne_op expected = ok (any (λ v. not (equal_mongo_like v expected)) values)
    condition_entry values gt_op expected = ok (any (λ v. rt.less expected v) values)
    condition_entry values gte_op expected = ok (any (λ v. rt.at_most expected v) values)
    condition_entry values lt_op expected = ok (any (λ v. rt.less v expected) values)
    condition_entry values lte_op expected = ok (any (λ v. rt.at_most v expected) values)
    condition_entry values in_op (arr xs) = ok (any (equals_any (items_list xs)) values)
    condition_entry values in_op _ = err type_error
    condition_entry values nin_op (arr xs) =
        ok (any (λ v. not (equals_any (items_list xs) v)) values)
    condition_entry values nin_op _ = err type_error
    condition_entry values size_op expected = ok (any (has_size expected) values)
    condition_entry values all_op (arr xs) = ok (any (has_all (items_list xs)) values)
    condition_entry values all_op _ = err type_error
    condition_entry values elem_match_op (obj fs) =
        some_element (λ item. matches_fields item fs) values
    condition_entry values elem_match_op expected = some_element (λ item. no_query expected) values
    condition_entry values unsupported_op expected = err type_error

  unfoldable pub matches_condition : List Value → Value → Result Bool
  matches_condition values (obj fs) = elim (has_operator fs) [
    | true ↦ condition_fields values fs
    | false ↦ ok (plain_condition values (obj fs))
  ]
  matches_condition values condition = ok (plain_condition values condition)
