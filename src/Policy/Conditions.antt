-- ===== src/Policy/Conditions.antt =====
-- src/policy-compiler.js: conditions on a document, compiled (compiledCondition, evaluateWhere) and
-- interpreted (interpretWhere).
use syncio.Base.{
  ℕ, String, Bool, true, false, not, ◌&&◌, ◌||◌, Option, none, some, List, [], ◌∷◌, any, eqb, ◌==◌,
  ◌%◌, ◌^◌, if◌then◌else◌,
}
use syncio.Json.{
  Value, undefined, null, bool, num, str, arr, obj, exotic, Fields, end, field, truthy, is_finite,
}
use syncio.Document.Path.{own, own_property, split_path}
use syncio.Document.Match.{items_list}

-- What the runtime does: `<` and `<=`, and reading a property of a value that is no object.
pub record Order : Type 0 where
  pub less : Value → Value → Bool
  pub at_most : Value → Value → Bool
  pub member : String → Value → Option Value

abbrev is_nan : ℕ → Bool
is_nan n = not (is_finite n) && not (eqb (n % 2 ^ 52) 0)

-- Object.is; a condition is a copy, so an object or an array is never the same as one of it.
unfoldable pub same_value : Value → Value → Bool
unfolding is_finite
same_value undefined undefined = true
same_value null null = true
same_value (bool true) (bool b) = b
same_value (bool false) (bool b) = not b
same_value (num m) (num n) = eqb m n || is_nan m && is_nan n
same_value (str s) (str t) = s == t
same_value _ _ = false

abbrev pub is_defined : Value → Bool
is_defined undefined = false
is_defined _ = true

abbrev pub same_truth : Bool → Bool → Bool
same_truth true b = b
same_truth false b = not b

-- The items of `$in` and `$nin`, which validateWhere has found to be arrays.
abbrev pub candidates_of : Value → List Value
candidates_of (arr xs) = items_list xs
candidates_of _ = []

-- `'$op' in condition`, and then the test of what stands there.
abbrev pub holds : (Value → Bool) → Option Value → Bool
holds test none = true
holds test (some expected) = test expected

module _ (order : Order) where
  -- readPath: `current?.[part]` along the parts of the path.
  unfoldable pub read_parts : List String → Value → Value
  unfolding own_property
  read_parts [] v = v
  read_parts (part ∷ parts) undefined = undefined
  read_parts (part ∷ parts) null = undefined
  read_parts (part ∷ parts) (obj fs) = elim (own part fs) [
    | none ↦ undefined
    | some w ↦ read_parts parts w
  ]
  read_parts (part ∷ parts) (arr xs) = elim (own_property part (arr xs)) [
    | none ↦ undefined
    | some w ↦ read_parts parts w
  ]
  read_parts (part ∷ parts) v = elim (order.member part v) [
    | none ↦ undefined
    | some w ↦ read_parts parts w
  ]

  unfoldable pub read_at : Value → String → Value
  unfolding read_parts split_path
  read_at document path = read_parts (split_path path) document

  -- The operators that the fields of a condition hold, in the order of the source's tests.
  unfoldable pub compiled_operators : Fields → Value → Bool
  unfolding same_value own items_list truthy
  compiled_operators fs actual =
      holds (λ expected. same_value actual expected) (own "$eq" fs)
      && holds (λ expected. not (same_value actual expected)) (own "$ne" fs)
      && holds (λ expected. any (λ v. same_value v actual) (candidates_of expected)) (own "$in" fs)
      && holds (λ expected. not (any (λ v. same_value v actual) (candidates_of expected)))
          (own "$nin" fs)
      && holds (λ expected. same_truth (is_defined actual) (truthy expected)) (own "$exists" fs)
      && holds (λ expected. order.less expected actual) (own "$gt" fs)
      && holds (λ expected. order.at_most expected actual) (own "$gte" fs)
      && holds (λ expected. order.less actual expected) (own "$lt" fs)
      && holds (λ expected. order.at_most actual expected) (own "$lte" fs)

  unfoldable pub compiled_condition : Value → Value → Bool
  unfolding compiled_operators same_value
  compiled_condition (obj fs) actual = compiled_operators fs actual
  compiled_condition (exotic true) actual = true
  compiled_condition condition actual = same_value actual condition

  unfoldable pub evaluate_where : Fields → Value → Bool
  unfolding compiled_condition read_at
  evaluate_where end document = true
  evaluate_where (field key condition fs) document =
      compiled_condition condition (read_at document key) && evaluate_where fs document

  -- The interpreter's test of one operator.
  unfoldable pub interpret_operator : String → Value → Value → Bool
  unfolding same_value items_list truthy
  interpret_operator operator expected actual =
      if operator == "$eq"
      then same_value actual expected
      else if operator == "$ne"
      then not (same_value actual expected)
      else if operator == "$in"
      then any (λ v. same_value v actual) (candidates_of expected)
      else if operator == "$nin"
      then not (any (λ v. same_value v actual) (candidates_of expected))
      else if operator == "$exists"
      then same_truth (is_defined actual) (truthy expected)
      else if operator == "$gt"
      then order.less expected actual
      else if operator == "$gte"
      then order.at_most expected actual
      else if operator == "$lt"
      then order.less actual expected
      else if operator == "$lte"
      then order.at_most actual expected
      else true

  unfoldable pub interpret_operators : Fields → Value → Bool
  unfolding interpret_operator
  interpret_operators end actual = true
  interpret_operators (field operator expected fs) actual =
      interpret_operator operator expected actual && interpret_operators fs actual

  unfoldable pub interpret_condition : Value → Value → Bool
  unfolding interpret_operators same_value
  interpret_condition (obj fs) actual = interpret_operators fs actual
  interpret_condition (exotic true) actual = true
  interpret_condition condition actual = same_value actual condition

  unfoldable pub interpret_where : Fields → Value → Bool
  unfolding interpret_condition read_at
  interpret_where end document = true
  interpret_where (field key condition fs) document =
      interpret_condition condition (read_at document key) && interpret_where fs document
