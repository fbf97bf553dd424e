-- ===== src/Indexed/Tables/Define.antt =====
-- src/indexed.js: defineIndex and dropIndex.
use syncio.Base.{
  String, Bool, true, false, not, ◌&&◌, Option, none, some, List, [], ◌∷◌, ◌++◌, Result, ok, err,
  index_name_conflict, io_failed, ◌>>=◌, ◌>>◌, any, select, length, eqb, ◌==◌, if◌then◌else◌,
}
use syncio.Base.Maps.{Map, put, delete}
use syncio.Json.{Value, bool, str, arr, validate_collection_name}
use syncio.Database.Collection.{all_records}
use syncio.Indexed.{Definition, rebuild}
use syncio.Indexed.Catalog.{
  normalize_index_fields, validate_index_name, definitions_of, same_definition, public_definition,
  public_definitions, join_names, or_value, is_true,
}
use syncio.Indexed.Tables.{IndexedDatabase, indexes_of, rebuild_collection}

-- The definition that `defineIndex` is asked for.
unfoldable pub requested_definition : Value → Value → Value → Value → Result Definition
unfolding normalize_index_fields validate_index_name join_names
requested_definition fields name unique sparse = do
  paths ← normalize_index_fields fields
  checked ← validate_index_name (or_value name (str (join_names paths)))
  ok (record { name = checked; fields = paths; unique = is_true unique; sparse = is_true sparse })

abbrev definition_request : Value → Value → Value → Value → Value → Result (String × Definition)
definition_request collection fields name unique sparse = do
  c ← validate_index_name collection
  d ← requested_definition fields name unique sparse
  ok (c, d)

unfoldable pub find_definition : String → List Definition → Option Definition
find_definition name [] = none
find_definition name (d ∷ ds) =
    let rest = find_definition name ds in if d.name == name then some d else rest

-- The name of `dropIndex`, which may be given by its fields.
unfoldable pub dropped_name : (Value → Result String) → Value → Result String
unfolding normalize_index_fields join_names validate_index_name
dropped_name text_of (arr xs) = do
  paths ← normalize_index_fields (arr xs)
  validate_index_name (str (join_names paths))
dropped_name text_of v = do name ← text_of v; validate_index_name (str name)

abbrev drop_request : (Value → Result String) → Value → Value → Result (String × String)
drop_request text_of collection name = do
  c ← validate_index_name collection
  n ← dropped_name text_of name
  ok (c, n)

-- What `dropIndex` keeps.
abbrev pub is_kept : String → Definition → Bool
is_kept name d =
    not (d.name == name) && not (eqb (length d.fields) 1 && any (λ path. path == name) d.fields)

module _ (stringify : List Value → String) where
  -- #persistCatalog; if it fails, the definitions are put back and the collection's indexes built
  -- anew.
  unfoldable pub persisted :
      Bool
      → String
      → Map (List Definition)
      → Value
      → IndexedDatabase
      → Result Value × IndexedDatabase
  unfolding rebuild_collection
  persisted true collection previous answer db = (ok answer, db)
  persisted false collection previous answer db =
      let (built, next) =
        rebuild_collection stringify collection (record db { definitions = previous }) in
      elim built [ err e ↦ (err e, next) | ok _ ↦ (err io_failed, next) ]

  -- `defineIndex` behind its checks, by whether there is a definition of that name.
  unfoldable pub define_checked :
      Bool
      → String
      → Definition
      → Option Definition
      → IndexedDatabase
      → Result Value × IndexedDatabase
  unfolding same_definition public_definition persisted rebuild
  define_checked saved collection d (some current) db =
      if same_definition stringify current d
      then (ok (public_definition collection current), db)
      else (err index_name_conflict, db)
  define_checked saved collection d none db =
      elim (validate_collection_name collection
        >> rebuild stringify d (all_records collection db.base)) [
          | err e ↦ (err e, db)
          | ok candidate ↦
              let current = definitions_of collection db.definitions in
              persisted saved collection db.definitions (public_definition collection d)
                (record db {
                  definitions = put collection (current ++ d ∷ []) db.definitions;
                  indexes =
                      put collection (put d.name candidate (indexes_of collection db.indexes))
                        db.indexes;
                })
        ]

  unfoldable pub define_index :
      Bool
      → Value
      → Value
      → Value
      → Value
      → Value
      → IndexedDatabase
      → Result Value × IndexedDatabase
  unfolding define_checked requested_definition find_definition validate_index_name
  define_index saved collection fields name unique sparse db =
      elim (definition_request collection fields name unique sparse) [
        | err e ↦ (err e, db)
        | ok (c, d) ↦
            define_checked saved c d (find_definition d.name (definitions_of c db.definitions)) db
      ]

  abbrev pub with_definitions :
      String → List Definition → Map (List Definition) → Map (List Definition)
  with_definitions collection [] definitions = delete collection definitions
  with_definitions collection (d ∷ ds) definitions = put collection (d ∷ ds) definitions

  unfoldable pub drop_checked :
      Bool → String → String → IndexedDatabase → Result Value × IndexedDatabase
  unfolding rebuild_collection persisted
  drop_checked saved collection name db =
      let current = definitions_of collection db.definitions in
      let rest = select (is_kept name) current in
      if eqb (length rest) (length current)
      then (ok (bool false), db)
      else (let (built, next) =
            rebuild_collection stringify collection
              (record db { definitions = with_definitions collection rest db.definitions }) in
          elim built [
            | err e ↦ (err e, next)
            | ok _ ↦ persisted saved collection db.definitions (bool true) next
          ])

  -- `text_of` is String of a value.
  unfoldable pub drop_index :
      (Value → Result String)
      → Bool
      → Value
      → Value
      → IndexedDatabase
      → Result Value × IndexedDatabase
  unfolding drop_checked dropped_name validate_index_name
  drop_index text_of saved collection name db = elim (drop_request text_of collection name) [
    | err e ↦ (err e, db)
    | ok (c, n) ↦ drop_checked saved c n db
  ]

-- listIndexes
unfoldable pub list_indexes : Map (List Definition) → List Value
unfolding public_definitions
list_indexes [] = []
list_indexes ((collection, ds) ∷ definitions) =
    public_definitions collection ds ++ list_indexes definitions
