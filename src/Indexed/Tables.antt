-- ===== src/Indexed/Tables.antt =====
-- src/indexed.js: IndexedSyncioDatabase. Its indexes are kept by collection and then by name, where
-- the source joins both with a character that no name has. Whether the catalog file could be
-- written is an argument, `saved`.
pub mod Writes
pub mod Define
pub mod Kept
pub mod Followed
pub mod Removed
use syncio.Base.{
  ℕ, String, Bool, true, false, not, ◌&&◌, ◌||◌, Option, none, some, List, [], ◌∷◌, ◌++◌, Error,
  Result, ok, err, duplicate_id, index_name_conflict, io_failed, type_error, ◌>>=◌, ◌>>◌, require,
  any, all, select, length, eqb, ◌==◌, if◌then◌else◌,
}
use syncio.Base.Maps.{Map, get, put, delete, keys, values}
use syncio.Json.{
  Value, undefined, null, bool, str, arr, obj, Items, Fields, end, set_field, get_field, truthy,
  property, validate_collection_name, validate_id,
}
use syncio.Document.Project.{is_empty}
use syncio.Change.{Change}
use syncio.Wal.{Payload}
use syncio.Database.State.{Collection, State, RawState, Database, collection_of}
use syncio.Database.Events.{Env}
use syncio.Database.Same.{Equality}
use syncio.Database.Commit.{Io, replace_state}
use syncio.Database.Collection.{insert, upsert, remove, get_record, all_records, id_or}
use syncio.Database.Transaction.{transaction}
use syncio.Database.Replication.{Outcome, applied, duplicate, apply_replication_change}
use syncio.Control.Records.{spread}
use syncio.Indexed.{Definition, Index, rebuild, update_index}
use syncio.Indexed.Catalog.{
  normalize_index_fields, validate_index_name, definitions_of, same_definition, public_definition,
  join_names, or_value, is_true,
}
use syncio.Indexed.Guard.{GuardedWork, returns, throws, gets, puts, guard, assert_unique}

pub record IndexedDatabase : Type 0 where
  pub base : Database
  pub definitions : Map (List Definition)
  pub indexes : Map (Map Index)

abbrev pub or_no_indexes : Option (Map Index) → Map Index
or_no_indexes none = []
or_no_indexes (some m) = m

abbrev pub indexes_of : String → Map (Map Index) → Map Index
indexes_of name indexes = or_no_indexes (get name indexes)

-- #hasUniqueIndex
abbrev pub has_unique_index : List Definition → Bool
has_unique_index ds = any (λ (d : Definition). d.unique) ds

-- The record that `insert` makes where there is a unique index, of a value that is an object or
-- nothing.
abbrev pub record_of : Env → Value → Value
record_of env value =
    obj (set_field "id" (id_or env.record_id (property "id" value)) (spread value))

abbrev pub insert_work : String → Value → GuardedWork
insert_work name document = gets name (property "id" document) λ found. elim found [
  | err e ↦ throws e
  | ok there ↦ elim (truthy there) [
    | true ↦ throws duplicate_id
    | false ↦ puts name document λ done. elim done [ err e ↦ throws e | ok _ ↦ returns document ]
  ]
]

abbrev pub upsert_work : String → Value → GuardedWork
upsert_work name document =
    puts name document λ done. elim done [ err e ↦ throws e | ok _ ↦ returns document ]

module _ (stringify : List Value → String) where
  -- The indexes of one collection, until one cannot be built.
  unfoldable pub rebuild_indexes :
      List Definition → List Value → Map Index → Result (Unit {0}) × Map Index
  unfolding rebuild
  rebuild_indexes [] documents made = (ok tt, made)
  rebuild_indexes (d ∷ ds) documents made = elim (rebuild stringify d documents) [
    | err e ↦ (err e, made)
    | ok index ↦ rebuild_indexes ds documents (put d.name index made)
  ]

  -- #rebuildCollection
  unfoldable pub rebuild_collection : String → IndexedDatabase → Result (Unit {0}) × IndexedDatabase
  unfolding rebuild_indexes
  rebuild_collection name db = elim (validate_collection_name name) [
    | err e ↦ (err e, record db { indexes = delete name db.indexes })
    | ok _ ↦
        let (built, made) =
          rebuild_indexes (definitions_of name db.definitions) (all_records name db.base) [] in
        (built, record db { indexes = put name made (delete name db.indexes) })
  ]

  unfoldable pub rebuild_collections :
      List String → IndexedDatabase → Result (Unit {0}) × IndexedDatabase
  unfolding rebuild_collection
  rebuild_collections [] db = (ok tt, db)
  rebuild_collections (name ∷ names) db =
      let (built, next) = rebuild_collection name db in
      let rest = rebuild_collections names next in
      elim built [ err e ↦ (err e, next) | ok _ ↦ rest ]

  -- #rebuildAll
  unfoldable pub rebuild_all : IndexedDatabase → Result (Unit {0}) × IndexedDatabase
  unfolding rebuild_collections
  rebuild_all db = rebuild_collections (keys db.definitions) (record db { indexes = [] })

  -- #updateIndexes; an index that refuses the record stays as it was here, which no caller comes
  -- to, since they add records only where no index is unique.
  unfoldable pub update_named :
      Option Index → Definition → Value → Value → Map Index → Result (Map Index)
  unfolding update_index
  update_named none d before after indexes = ok indexes
  update_named (some index) d before after indexes = do
    next ← update_index stringify d before after index
    ok (put d.name next indexes)

  unfoldable pub update_indexes : List Definition → Value → Value → Map Index → Result (Map Index)
  unfolding update_named
  update_indexes [] before after indexes = ok indexes
  update_indexes (d ∷ ds) before after indexes = do
    next ← update_named (get d.name indexes) d before after indexes
    update_indexes ds before after next

  -- A write of the base whose result is given back once the indexes have it.
  unfoldable pub with_indexes :
      {A : Type 0}
      → String
      → A
      → Database
      → IndexedDatabase
      → Result (Map Index)
      → Result A × IndexedDatabase
  with_indexes name result base db (err e) = (err e, record db { base = base })
  with_indexes name result base db (ok indexes) =
      (ok result, record db { base = base; indexes = put name indexes db.indexes })

  unfoldable pub updated :
      {A : Type 0}
      → String
      → Value
      → (A → Value)
      → Result A × Database
      → IndexedDatabase
      → Result A × IndexedDatabase
  unfolding update_indexes with_indexes
  updated name before after (err e, base) db = (err e, record db { base = base })
  updated name before after (ok result, base) db = with_indexes name result base db (
      update_indexes (definitions_of name db.definitions) before (after result)
        (indexes_of name db.indexes))

  -- What a write of the base gives, and every index built anew if it succeeded.
  unfoldable pub rebuilt :
      {A : Type 0} → Result A × Database → IndexedDatabase → Result A × IndexedDatabase
  unfolding rebuild_all
  rebuilt (err e, base) db = (err e, record db { base = base })
  rebuilt (ok result, base) db =
      let (built, next) = rebuild_all (record db { base = base }) in
      elim built [ err e ↦ (err e, next) | ok _ ↦ (ok result, next) ]
