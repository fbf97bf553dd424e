-- ===== src/Document/Aggregate.antt =====
-- src/document.js: aggregateDocuments and its stages. A row is a plain object. Array.prototype.sort is
-- a stable sort; it is given as an insertion, which agrees with it where the comparison is consistent.
pub mod Stages
pub mod Order
pub mod Sorting
pub mod Groups
use Prim.Native.Char.{code}
use syncio.Base.{
  ℕ, zero, suc, String, Bool, true, false, not, ◌&&◌, ◌||◌, Option, none, some, List, [], ◌∷◌, ◌++◌,
  map, Result, ok, err, type_error, ◌>>=◌, ◌>>◌, require, leb, eqb, ◌==◌, any, all, length, take,
  drop, last?, if◌then◌else◌,
}
use syncio.Json.{
  Value, undefined, null, num, str, arr, obj, Items, nil, cons, Fields, end, field, get_field,
  set_field, codes,
}
use syncio.Document.Runtime.{Runtime, number_equal, double_of, natural_of}
use syncio.Document.Path.{own, get_path, set_mutable, resolve_values, split_path}
use syncio.Document.Match.{is_operator, items_list, matches}
use syncio.Document.Update.{read_path, items_of, add_unique}
use syncio.Document.Project.{project_document, is_empty}

-- The text behind its first character.
abbrev pub tail_of : String → String
tail_of String.[] = String.[]
tail_of (String.◌∷◌ c s) = s

-- The first of some values, or undefined.
abbrev pub first_or_undefined : List Value → Value
first_or_undefined [] = undefined
first_or_undefined (v ∷ vs) = v

unfoldable pub first_path_value : Fields → String → Result Value
first_path_value row path = do values ← get_path (obj row) path; ok (first_or_undefined values)

unfoldable pub evaluate_expression : Fields → Value → Result Value
evaluate_expression row (str s) =
    if is_operator s then first_path_value row (tail_of s) else ok (str s)
evaluate_expression row v = ok v

-- `map` and `filter` of a test that may throw.
unfoldable pub map_result : {A B : Type 0} → (A → Result B) → List A → Result (List B)
map_result f [] = ok []
map_result f (x ∷ xs) = do y ← f x; ys ← map_result f xs; ok (y ∷ ys)

unfoldable pub filter_result : {A : Type 0} → (A → Result Bool) → List A → Result (List A)
filter_result test [] = ok []
filter_result test (x ∷ xs) = do
  kept ← test x
  rest ← filter_result test xs
  ok (if kept then x ∷ rest else rest)

-- $skip and $limit.
unfoldable pub natural_spec : Value → Result ℕ
natural_spec (num bits) = elim (natural_of bits) [ none ↦ err type_error | some n ↦ ok n ]
natural_spec _ = err type_error

-- /^[A-Za-z_][A-Za-z0-9_]*$/
abbrev pub field_start : ℕ → Bool
field_start c = leb b'A' c && leb c b'Z' || leb b'a' c && leb c b'z' || eqb c b'_'

abbrev pub field_char : ℕ → Bool
field_char c = field_start c || leb b'0' c && leb c b'9'

abbrev pub is_field_name : List ℕ → Bool
is_field_name [] = false
is_field_name (c ∷ cs) = field_start c && all field_char cs

unfoldable pub output_field : Value → Result String
output_field (str s) = if is_field_name (codes s) then ok s else err type_error
output_field _ = err type_error

-- $unwind: a path, with a dollar sign before it or not, or an object that has one.
unfoldable pub unwind_path : Value → Result String
unwind_path (str s) =
    if s == "" then err type_error else ok (if is_operator s then tail_of s else s)
unwind_path (obj fs) = elim (own "path" fs) [
  | some (str s) ↦ if s == "" then err type_error else ok (if is_operator s then tail_of s else s)
  | _ ↦ err type_error
]
unwind_path _ = err type_error

unfoldable pub unwind_items : String → Fields → List Value → Result (List Fields)
unwind_items path row [] = ok []
unwind_items path row (item ∷ items) = do
  copy ← set_mutable path item row
  rest ← unwind_items path row items
  ok (copy ∷ rest)

unfoldable pub unwind_rows : String → List Fields → Result (List Fields)
unfolding unwind_items items_list
unwind_rows path [] = ok []
unwind_rows path (row ∷ rows) = elim (read_path path row) [
  | some (arr xs) ↦ do
    copies ← unwind_items path row (items_list xs)
    rest ← unwind_rows path rows
    ok (copies ++ rest)
  | _ ↦ unwind_rows path rows
]

pub data Direction : Type 0 where
  ascending descending : Direction

-- 1 is ascending and -1 descending.
unfoldable pub direction_of : Value → Result Direction
unfolding double_of number_equal
direction_of (num n) =
    if number_equal n (double_of 1)
    then ok ascending
    else if number_equal n 0xBFF0000000000000
    then ok descending
    else err type_error
direction_of _ = err type_error

unfoldable pub sort_entries : Fields → Result (List (String × Direction))
unfolding direction_of
sort_entries end = ok []
sort_entries (field key v fs) = do
  direction ← direction_of v
  rest ← sort_entries fs
  ok ((key, direction) ∷ rest)

pub data Accumulator : Type 0 where
  sum_of avg_of min_of max_of first_of last_of push_of add_to_set_of unsupported_accumulator :
      Accumulator

unfoldable pub accumulator_of : String → Accumulator
accumulator_of key =
    if key == "$sum"
    then sum_of
    else if key == "$avg"
    then avg_of
    else if key == "$min"
    then min_of
    else if key == "$max"
    then max_of
    else if key == "$first"
    then first_of
    else if key == "$last"
    then last_of
    else if key == "$push"
    then push_of
    else if key == "$addToSet"
    then add_to_set_of
    else unsupported_accumulator

unfoldable pub numbers_of : List Value → List ℕ
numbers_of [] = []
numbers_of (num n ∷ vs) = n ∷ numbers_of vs
numbers_of (_ ∷ vs) = numbers_of vs

unfoldable pub fold_left : {A B : Type 0} → (B → A → B) → B → List A → B
fold_left f b [] = b
fold_left f b (x ∷ xs) = fold_left f (f b x) xs

-- An object with one entry.
abbrev pub single_entry : Value → Result (String × Value)
single_entry (obj (field key v end)) = ok (key, v)
single_entry _ = err type_error

pub record Group : Type 0 where
  pub key : Option String
  pub id : Value
  pub rows : List Fields

abbrev pub same_key : Option String → Option String → Bool
same_key none none = true
same_key (some s) (some t) = s == t
same_key _ _ = false

unfoldable pub add_to_group : Option String → Value → Fields → List Group → List Group
add_to_group key id row [] = record { key = key; id = id; rows = row ∷ [] } ∷ []
add_to_group key id row (g ∷ gs) =
    let rest = add_to_group key id row gs in
    if same_key g.key key then record g { rows = g.rows ++ row ∷ [] } ∷ gs else g ∷ rest

pub data Stage : Type 0 where
  match_stage project_stage sort_stage skip_stage limit_stage count_stage unwind_stage : Stage
  group_stage unsupported_stage : Stage

unfoldable pub stage_of : String → Stage
stage_of key =
    if key == "$match"
    then match_stage
    else if key == "$project"
    then project_stage
    else if key == "$sort"
    then sort_stage
    else if key == "$skip"
    then skip_stage
    else if key == "$limit"
    then limit_stage
    else if key == "$count"
    then count_stage
    else if key == "$unwind"
    then unwind_stage
    else if key == "$group"
    then group_stage
    else unsupported_stage

module _ (rt : Runtime) where
  -- `(a > b ? 1 : -1) * direction <= 0`, and so for a missing value, which comes first.
  unfoldable pub value_before : Direction → Value → Value → Bool
  value_before ascending undefined b = true
  value_before descending undefined b = false
  value_before ascending a undefined = false
  value_before descending a undefined = true
  value_before ascending a b = not (rt.less b a)
  value_before descending a b = rt.less b a

  -- Whether the comparison of two rows is at most 0. A path that is the empty text is refused before
  -- any comparison; the source refuses it in the first comparison that comes to it.
  unfoldable pub row_before : List (String × Direction) → Fields → Fields → Bool
  unfolding value_before
  row_before [] left right = true
  row_before ((path, direction) ∷ entries) left right =
      let a = first_or_undefined (resolve_values (obj left) (split_path path)) in
      let b = first_or_undefined (resolve_values (obj right) (split_path path)) in
      if rt.deep_equal a b then row_before entries left right else value_before direction a b

  unfoldable pub place_row : List (String × Direction) → Fields → List Fields → List Fields
  unfolding row_before
  place_row entries row [] = row ∷ []
  place_row entries row (next ∷ rows) =
      let rest = place_row entries row rows in
      if row_before entries row next then row ∷ next ∷ rows else next ∷ rest

  unfoldable pub sort_rows : List (String × Direction) → List Fields → List Fields
  unfolding place_row
  sort_rows entries [] = []
  sort_rows entries (row ∷ rows) = place_row entries row (sort_rows entries rows)

  unfoldable pub sort_documents : List Fields → Value → Result (List Fields)
  unfolding sort_rows sort_entries
  sort_documents rows (obj fs) = do
    entries ← sort_entries fs
    require (not (is_empty entries)) type_error
    require (leb (length rows) 1 || all (λ entry. not (entry.0 == "")) entries) type_error
    ok (sort_rows entries rows)
  sort_documents rows _ = err type_error

  unfoldable pub group_rows : Value → List Group → List Fields → Result (List Group)
  unfolding add_to_group evaluate_expression
  group_rows expression groups [] = ok groups
  group_rows expression groups (row ∷ rows) = do
    id ← evaluate_expression row expression
    group_rows expression (add_to_group (rt.to_json id) id row groups) rows

  -- `best === undefined || better ? value : best`
  unfoldable pub better_of : (Value → Value → Bool) → Value → Value → Value
  better_of better undefined v = v
  better_of better best v = if better v best then v else best

  unfoldable pub accumulate : Accumulator → List Value → Result Value
  unfolding fold_left numbers_of add_unique items_of better_of double_of
  accumulate sum_of values = ok (num (fold_left rt.add 0 (numbers_of values)))
  accumulate avg_of values =
      let numbers = numbers_of values in
      ok (
        if is_empty numbers
        then null
        else num (rt.divide (fold_left rt.add 0 numbers) (double_of (length numbers))))
  accumulate min_of values = ok (fold_left (better_of rt.less) undefined values)
  accumulate max_of values = ok (fold_left (better_of (λ v best. rt.less best v)) undefined values)
  accumulate first_of values = ok (first_or_undefined values)
  accumulate last_of values = ok (elim (last? values) [ none ↦ undefined | some v ↦ v ])
  accumulate push_of values = ok (arr (items_of values))
  accumulate add_to_set_of values = ok (arr (items_of (add_unique rt [] values)))
  accumulate unsupported_accumulator values = err type_error

  unfoldable pub group_output : Fields → List Fields → Fields → Result Fields
  unfolding accumulate map_result evaluate_expression
  group_output end rows output = ok output
  group_output (field key expression fs) rows output =
      if key == "_id" then group_output fs rows output else (do
        (operator, operand) ← single_entry expression
        values ← map_result (λ row. evaluate_expression row operand) rows
        result ← accumulate (accumulator_of operator) values
        group_output fs rows (set_field key result output))

  unfoldable pub group_documents : List Fields → Value → Result (List Fields)
  unfolding group_rows group_output
  group_documents rows (obj fs) = elim (own "_id" fs) [
    | none ↦ err type_error
    | some expression ↦ do
      groups ← group_rows expression [] rows
      map_result (λ (g : Group). group_output fs g.rows (field "_id" g.id end)) groups
  ]
  group_documents rows _ = err type_error

  unfoldable pub run_stage : Stage → Value → List Fields → Result (List Fields)
  run_stage match_stage spec rows = filter_result (λ row. matches rt (obj row) spec) rows
  run_stage project_stage spec rows = map_result (λ row. project_document row spec) rows
  run_stage sort_stage spec rows = sort_documents rows spec
  run_stage skip_stage spec rows = do n ← natural_spec spec; ok (drop n rows)
  run_stage limit_stage spec rows = do n ← natural_spec spec; ok (take n rows)
  run_stage count_stage spec rows = do
    name ← output_field spec
    ok (field name (num (double_of (length rows))) end ∷ [])
  run_stage unwind_stage spec rows = do path ← unwind_path spec; unwind_rows path rows
  run_stage group_stage spec rows = group_documents rows spec
  run_stage unsupported_stage spec rows = err type_error

  unfoldable pub aggregate_documents : List Value → List Fields → Result (List Fields)
  unfolding run_stage
  aggregate_documents [] rows = ok rows
  aggregate_documents (stage ∷ pipeline) rows = do
    (operator, spec) ← single_entry stage
    next ← run_stage (stage_of operator) spec rows
    aggregate_documents pipeline next
