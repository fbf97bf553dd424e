-- ===== src/Indexed/Catalog.antt =====
-- src/indexed.js: the definitions of indexes as the catalog file and the callers give them. What
-- JSON.parse reads is a `Value`.
pub mod Normal
use Prim.Native.String.{◌++◌}
use syncio.Base.{
  String, Bool, true, false, not, ◌&&◌, ◌||◌, Option, none, some, List, [], ◌∷◌, Result, ok, err,
  type_error, invalid_index_catalog, ◌>>=◌, ◌>>◌, require, all, any, map, length, leb, eqb, ◌==◌,
  if◌then◌else◌,
}
use syncio.Base.Maps.{Map, put, get}
use syncio.Json.{
  Value, undefined, null, bool, str, arr, obj, Items, nil, cons, Fields, end, field, codes,
  utf16_length, name_char, get_field,
}
use syncio.Document.Match.{items_list}
use syncio.Document.Update.{items_of}
use syncio.Indexed.{Definition}

-- /^[A-Za-z0-9_.-]+$/ and at most 128 units.
unfoldable pub valid_index_name : String → Bool
valid_index_name name =
    not (name == "")
    && all (λ c. name_char c || eqb c b'.') (codes name)
    && leb (utf16_length (codes name)) 128

unfoldable pub validate_index_name : Value → Result String
unfolding valid_index_name
validate_index_name (str name) = if valid_index_name name then ok name else err type_error
validate_index_name _ = err type_error

-- `list.map(...)`, of an array without holes; map leaves a hole as it is.
unfoldable pub validate_names : List Value → Result (List String)
unfolding validate_index_name
validate_names [] = ok []
validate_names (v ∷ vs) = do
  name ← validate_index_name v
  names ← validate_names vs
  ok (name ∷ names)

-- `new Set(names).size === names.length`
unfoldable pub all_distinct : List String → Bool
all_distinct [] = true
all_distinct (x ∷ xs) = not (any (λ y. x == y) xs) && all_distinct xs

unfoldable pub fields_list : Value → Result (List Value)
unfolding items_list
fields_list (str s) = ok (str s ∷ [])
fields_list (arr xs) = ok (items_list xs)
fields_list _ = err type_error

unfoldable pub normalize_index_fields : Value → Result (List String)
unfolding fields_list validate_names all_distinct
normalize_index_fields fields = do
  list ← fields_list fields
  require (leb 1 (length list) && leb (length list) 16) type_error
  normalized ← validate_names list
  require (all_distinct normalized) type_error
  ok normalized

-- `fields.join('_')`
unfoldable pub join_names : List String → String
join_names [] = ""
join_names (x ∷ []) = x
join_names (x ∷ y ∷ xs) = x ++ "_" ++ join_names (y ∷ xs)

-- `value ?? fallback`
abbrev pub or_value : Value → Value → Value
or_value undefined fallback = fallback
or_value null fallback = fallback
or_value v fallback = v

-- `value === true`
abbrev pub is_true : Value → Bool
is_true (bool b) = b
is_true _ = false

unfoldable pub normalize_definition : Value → Result Definition
unfolding normalize_index_fields join_names validate_index_name
normalize_definition (obj fs) = do
  fields ← normalize_index_fields (or_value (get_field "fields" fs) (get_field "field" fs))
  name ← validate_index_name (or_value (get_field "name" fs) (str (join_names fields)))
  ok (record {
    name = name;
    fields = fields;
    unique = is_true (get_field "unique" fs);
    sparse = is_true (get_field "sparse" fs);
  })
normalize_definition _ = err type_error

-- A definition that is a text is the name of one field.
abbrev pub definition_object : Value → Value
definition_object (str s) = obj (
    field "name" (str s) (
      field "fields" (arr (cons (str s) nil))
        (field "unique" (bool false) (field "sparse" (bool false) end))))
definition_object v = v

unfoldable pub normalize_items : Items → Result (List Definition)
unfolding normalize_definition
normalize_items nil = ok []
normalize_items (cons x xs) = do
  d ← normalize_definition (definition_object x)
  ds ← normalize_items xs
  ok (d ∷ ds)

abbrev pub definition_names : List Definition → List String
definition_names [] = []
definition_names (d ∷ ds) = d.name ∷ definition_names ds

unfoldable pub normalize_collection : Value → Result (List Definition)
unfolding normalize_items all_distinct
normalize_collection (arr xs) = do
  definitions ← normalize_items xs
  require (all_distinct (definition_names definitions)) invalid_index_catalog
  ok definitions
normalize_collection _ = err invalid_index_catalog

unfoldable pub normalize_entries : Fields → Map (List Definition) → Result (Map (List Definition))
unfolding normalize_collection validate_index_name
normalize_entries end output = ok output
normalize_entries (field collection raw fs) output = do
  name ← validate_index_name (str collection)
  definitions ← normalize_collection raw
  normalize_entries fs (put name definitions output)

unfoldable pub normalize_definitions : Value → Result (Map (List Definition))
unfolding normalize_entries
normalize_definitions (obj fs) = normalize_entries fs []
normalize_definitions _ = err invalid_index_catalog

-- A definition as JSON.stringify writes it in the catalog.
unfoldable pub definition_value : Definition → Value
unfolding items_of
definition_value d = obj (
    field "name" (str d.name) (
      field "fields" (arr (items_of (map str d.fields)))
        (field "unique" (bool d.unique) (field "sparse" (bool d.sparse) end))))

abbrev pub is_default : Definition → List String → Bool
is_default d (path ∷ []) = not d.unique && not d.sparse && d.name == path
is_default d _ = false

abbrev pub first_name : List String → String
first_name [] = ""
first_name (x ∷ xs) = x

-- What a caller sees of a definition.
unfoldable pub public_definition : String → Definition → Value
unfolding items_of
public_definition collection d =
    if is_default d d.fields
    then obj (field "collection" (str collection) (field "field" (str (first_name d.fields)) end))
    else obj (
        field "collection" (str collection) (
          field "name" (str d.name) (
            field "fields" (arr (items_of (map str d.fields)))
              (field "unique" (bool d.unique) (field "sparse" (bool d.sparse) end)))))

abbrev pub definitions_of : String → Map (List Definition) → List Definition
definitions_of collection definitions = elim (get collection definitions) [
  | none ↦ []
  | some ds ↦ ds
]

-- The part of `listIndexes` for a collection.
unfoldable pub public_definitions : String → List Definition → List Value
unfolding public_definition
public_definitions collection ds = map (public_definition collection) ds

-- A comparison by JSON.stringify.
unfoldable pub same_values : (List Value → String) → List Value → List Value → Bool
same_values stringify left right = stringify left == stringify right

unfoldable pub same_bool : Bool → Bool → Bool
same_bool true b = b
same_bool false b = not b

unfoldable pub same_definition : (List Value → String) → Definition → Definition → Bool
unfolding same_values same_bool
same_definition stringify a b =
    a.name == b.name
    && same_bool a.unique b.unique
    && same_bool a.sparse b.sparse
    && same_values stringify (map str a.fields) (map str b.fields)
