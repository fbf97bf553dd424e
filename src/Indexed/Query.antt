-- ===== src/Indexed/Query.antt =====
-- src/advanced.js: queryRecords; src/indexed.js: explainQuery and query.
pub mod Lookup
use syncio.Base.{
  ℕ, ◌%◌, ◌^◌, String, Bool, true, false, not, ◌&&◌, ◌||◌, Option, none, some, List, [], ◌∷◌,
  Result, ok, err, type_error, ◌>>=◌, ◌>>◌, require, all, map, select, length, take, drop, leb, ltb,
  eqb, ◌==◌, if◌then◌else◌,
}
use syncio.Base.Maps.{Map, get}
use syncio.Json.{
  Value, undefined, null, bool, num, str, arr, obj, exotic, Fields, end, is_finite, truthy,
  get_field, property, validate_collection_name, validate_id,
}
use syncio.Document.Runtime.{Runtime, natural_of}
use syncio.Document.Match.{matches, items_list}
use syncio.Document.Project.{is_empty, project_document}
use syncio.Document.Aggregate.{Direction, ascending, descending, filter_result, map_result}
use syncio.Database.State.{Database}
use syncio.Database.Collection.{all_records, get_record}
use syncio.Indexed.{Definition, Index, first_value, find}
use syncio.Indexed.Catalog.{or_value}

-- `Object.is` of values of two records, which share no object: a number is what its bits say, but
-- that every pattern which is not a number is the same.
unfoldable pub is_same_value : Value → Value → Bool
unfolding is_finite
is_same_value undefined undefined = true
is_same_value null null = true
is_same_value (bool true) (bool b) = b
is_same_value (bool false) (bool b) = not b
is_same_value (num m) (num n) =
    eqb m n || not (is_finite m || is_finite n || eqb (m % 2 ^ 52) 0 || eqb (n % 2 ^ 52) 0)
is_same_value (str s) (str t) = s == t
is_same_value _ _ = false

-- One entry of `orderBy`.
unfoldable pub order_direction : Value → Result Direction
order_direction (str s) =
    if s == "asc" then ok ascending else if s == "desc" then ok descending else err type_error
order_direction _ = err type_error

unfoldable pub order_field : Value → Result String
order_field (str s) = if s == "" then err type_error else ok s
order_field _ = err type_error

unfoldable pub order_entry : Value → Result (String × Direction)
unfolding order_direction order_field
order_entry (obj fs) = do
  path ← order_field (get_field "field" fs)
  direction ← order_direction (or_value (get_field "direction" fs) (str "asc"))
  ok (path, direction)
order_entry _ = err type_error

abbrev pub order_list : Value → List Value
order_list (arr xs) = items_list xs
order_list v = v ∷ []

-- Number.isInteger of what is not negative; one above 2 ^ 53 counts as that, which is longer than
-- any array.
unfoldable pub whole_number : ℕ → Option ℕ
unfolding natural_of
whole_number bits = elim (natural_of bits) [
  | some n ↦ some n
  | none ↦
      if leb 0x4340000000000000 bits && ltb bits 0x7FF0000000000000 then some (2 ^ 53) else none
]

unfoldable pub skip_records : Value → List Value → List Value
unfolding whole_number
skip_records (num bits) records = elim (whole_number bits) [
  | none ↦ records
  | some n ↦ drop n records
]
skip_records _ records = records

unfoldable pub limit_records : Value → List Value → List Value
unfolding whole_number
limit_records (num bits) records = elim (whole_number bits) [
  | none ↦ records
  | some n ↦ take n records
]
limit_records _ records = records

-- Projection is called of records, which are objects.
unfoldable pub project_value : Value → Value → Result Value
unfolding project_document
project_value projection (obj fs) = do
  projected ← project_document fs projection
  ok (obj projected)
project_value projection v = err type_error

module _ (rt : Runtime) where
  -- `compare(a, b) <= 0`, with the direction's sign.
  unfoldable pub compares_before : Direction → Value → Value → Bool
  compares_before ascending undefined b = true
  compares_before descending undefined b = false
  compares_before ascending a undefined = false
  compares_before descending a undefined = true
  compares_before ascending a b = not (rt.less b a)
  compares_before descending a b = rt.less b a

  -- Whether the comparison of `sort` is at most 0.
  unfoldable pub ordered_before : List (String × Direction) → Value → Value → Bool
  unfolding compares_before is_same_value first_value
  ordered_before [] left right = true
  ordered_before ((path, direction) ∷ order) left right =
      let rest = ordered_before order left right in
      if is_same_value (first_value left path) (first_value right path)
      then rest
      else compares_before direction (first_value left path) (first_value right path)

  unfoldable pub insert_ordered : List (String × Direction) → Value → List Value → List Value
  unfolding ordered_before
  insert_ordered order record' [] = record' ∷ []
  insert_ordered order record' (next ∷ records) =
      let rest = insert_ordered order record' records in
      if ordered_before order record' next then record' ∷ next ∷ records else next ∷ rest

  unfoldable pub order_records : List (String × Direction) → List Value → List Value
  unfolding insert_ordered
  order_records order [] = []
  order_records order (record' ∷ records) =
      insert_ordered order record' (order_records order records)

  unfoldable pub select_records : Value → List Value → Result (List Value)
  unfolding filter_result
  select_records wanted records =
      if truthy wanted then filter_result (λ r. matches rt r wanted) records else ok records

  unfoldable pub sort_records : Value → List Value → Result (List Value)
  unfolding order_records order_entry map_result items_list
  sort_records order_by records =
      if truthy order_by
      then (do
        order ← map_result order_entry (order_list order_by)
        ok (order_records order records))
      else ok records

  -- queryRecords of records that have no query of their own.
  unfoldable pub query_records : Value → List Value → Result (List Value)
  unfolding select_records sort_records skip_records limit_records project_value map_result
  query_records spec records = do
    selected ← select_records (property "where" spec) records
    ordered ← sort_records (property "orderBy" spec) selected
    map_result (project_value (property "projection" spec))
        (limit_records (property "limit" spec) (skip_records (property "offset" spec) ordered))

-- isSimpleEquality
unfoldable pub is_simple_equality : Value → Bool
is_simple_equality undefined = false
is_simple_equality (obj fs) = false
is_simple_equality (exotic is_object) = not is_object
is_simple_equality _ = true

pub data QueryPlan : Type 0 where
  scan : QueryPlan
  by_field : String → Value → QueryPlan
  by_index : String → List Value → QueryPlan

-- The conditions of a query, if they are an object's.
abbrev pub where_fields : Value → Fields
where_fields (obj fs) = fs
where_fields _ = end

-- The first of the definitions with the most fields.
unfoldable pub widest : List Definition → Option Definition
widest [] = none
widest (d ∷ ds) = elim (widest ds) [
  | none ↦ some d
  | some e ↦ if ltb (length d.fields) (length e.fields) then some e else some d
]

unfoldable pub plan_of : Fields → Definition → List String → QueryPlan
plan_of wanted d (path ∷ []) = by_field path (get_field path wanted)
plan_of wanted d fields = by_index d.name (map (λ path. get_field path wanted) fields)

abbrev pub is_usable : Fields → Definition → Bool
is_usable wanted d = all (λ path. is_simple_equality (get_field path wanted)) d.fields

unfoldable pub explain_query : List Definition → Value → QueryPlan
unfolding widest plan_of is_simple_equality
explain_query definitions spec =
    let wanted = where_fields (property "where" spec) in
    elim (widest (select (is_usable wanted) definitions)) [
      | none ↦ scan
      | some d ↦ plan_of wanted d d.fields
    ]

-- The index that `query` looks up for a plan, and the values.
unfoldable pub plan_lookup : QueryPlan → Option (String × List Value)
plan_lookup scan = none
plan_lookup (by_field path value) = some (path, value ∷ [])
plan_lookup (by_index name values) = some (name, values)

-- `this.base.collection(collection).get(id)`
unfoldable pub get_checked : String → Database → Value → Result Value
get_checked collection db id = do key ← validate_id id; ok (get_record collection key db)

module _ (rt : Runtime) (stringify : List Value → String) where
  -- The records that a query filters: those an index gives, or all.
  unfoldable pub looked_up : String → List Value → Index → Database → Result (List Value)
  unfolding find map_result get_checked
  looked_up collection values index db = do
    records ← map_result (get_checked collection db) (find stringify values index)
    ok (select truthy records)

  unfoldable pub query_candidates : String → QueryPlan → Map Index → Database → Result (List Value)
  unfolding plan_lookup looked_up
  query_candidates collection plan indexes db = elim (plan_lookup plan) [
    | none ↦ ok (all_records collection db)
    | some (name, values) ↦ elim (get name indexes) [
      | none ↦ ok (all_records collection db)
      | some index ↦ looked_up collection values index db
    ]
  ]

  -- `query`, with the definitions and the indexes of the collection.
  unfoldable pub query :
      String → Value → List Definition → Map Index → Database → Result (List Value)
  unfolding query_records explain_query query_candidates
  query collection spec definitions indexes db = do
    validate_collection_name collection
    candidates ← query_candidates collection (explain_query definitions spec) indexes db
    query_records rt spec candidates
