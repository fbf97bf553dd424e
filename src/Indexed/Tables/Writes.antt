-- ===== src/Indexed/Tables/Writes.antt =====
-- src/indexed.js: the operations of IndexedSyncioDatabase that write records.
use syncio.Base.{String, Bool, false, List, Result, ok, err, ◌>>=◌, ◌>>◌, if◌then◌else◌}
use syncio.Json.{Value, null, truthy, property, validate_collection_name, validate_id}
use syncio.Change.{Change}
use syncio.Wal.{Payload}
use syncio.Database.State.{RawState, Database}
use syncio.Database.Events.{Env}
use syncio.Database.Same.{Equality}
use syncio.Database.Commit.{Io, replace_state}
use syncio.Database.Collection.{insert, upsert, remove, get_record, all_records}
use syncio.Database.Transaction.{transaction}
use syncio.Database.Replication.{Outcome, applied, duplicate, apply_replication_change}
use syncio.Indexed.Catalog.{definitions_of}
use syncio.Indexed.Guard.{GuardedWork, guard, assert_unique}
use syncio.Indexed.Tables.{
  IndexedDatabase, has_unique_index, record_of, insert_work, upsert_work, rebuild_collection,
  updated, rebuilt,
}

-- What the database is made with: the comparison of records, the digest of the log, JSON.stringify
-- of an array and the name of a property.
pub record Platform : Type 0 where
  pub equality : Equality
  pub digest : Payload → String
  pub stringify : List Value → String
  pub property_name : Value → String

module _ (p : Platform) (io : Io) (env : Env) where
  -- `transaction`
  unfoldable pub guarded_transaction :
      GuardedWork → IndexedDatabase → Result Value × IndexedDatabase
  unfolding guard rebuilt transaction
  guarded_transaction work db =
      let proxied =
        guard p.stringify (λ name. definitions_of name db.definitions) p.property_name
          db.base.state.collections work in
      rebuilt p.stringify (transaction p.equality p.digest io env proxied db.base) db

  unfoldable pub indexed_insert : String → Value → IndexedDatabase → Result Value × IndexedDatabase
  unfolding guarded_transaction updated insert
  indexed_insert name value db =
      if has_unique_index (definitions_of name db.definitions)
      then guarded_transaction (insert_work name (record_of env value)) db
      else updated p.stringify name null (λ v. v) (insert p.digest io env name value db.base) db

  -- What `upsert` and `remove` read before they write.
  unfoldable pub read_before : String → Value → IndexedDatabase → Result Value
  unfolding get_record
  read_before name id_value db = do
    validate_collection_name name
    id ← validate_id id_value
    ok (get_record name id db.base)

  unfoldable pub before_upsert : String → Value → IndexedDatabase → Result Value
  unfolding read_before
  before_upsert name value db =
      if truthy (property "id" value) then read_before name (property "id" value) db else ok null

  unfoldable pub upsert_from :
      Result Value → String → Value → IndexedDatabase → Result Value × IndexedDatabase
  unfolding updated upsert
  upsert_from (err e) name value db = (err e, db)
  upsert_from (ok before) name value db =
      updated p.stringify name before (λ v. v) (upsert p.digest io env name value db.base) db

  unfoldable pub indexed_upsert : String → Value → IndexedDatabase → Result Value × IndexedDatabase
  unfolding guarded_transaction upsert_from before_upsert
  indexed_upsert name value db =
      if has_unique_index (definitions_of name db.definitions)
      then guarded_transaction (upsert_work name value) db
      else upsert_from (before_upsert name value db) name value db

  -- The indexes are left alone if there was no record.
  unfoldable pub removed :
      String → Value → Result Bool × Database → IndexedDatabase → Result Bool × IndexedDatabase
  unfolding updated
  removed name before (ok false, base) db = (ok false, record db { base = base })
  removed name before (result, base) db =
      updated p.stringify name before (λ existed. null) (result, base) db

  unfoldable pub remove_from :
      Result Value → String → Value → IndexedDatabase → Result Bool × IndexedDatabase
  unfolding removed remove
  remove_from (err e) name id db = (err e, db)
  remove_from (ok before) name id db =
      removed name before (remove p.digest io env name id db.base) db

  unfoldable pub indexed_remove : String → Value → IndexedDatabase → Result Bool × IndexedDatabase
  unfolding remove_from read_before
  indexed_remove name id db = remove_from (read_before name id db) name id db

  unfoldable pub indexed_replace_state :
      RawState → String → IndexedDatabase → Result (Unit {0}) × IndexedDatabase
  unfolding rebuilt replace_state
  indexed_replace_state next fresh db = rebuilt p.stringify (replace_state io next fresh db.base) db

  -- The resolver's answer is checked against the unique indexes before it is stored.
  unfoldable pub checked_resolver :
      (Value → Value → Result Value) → String → IndexedDatabase → Value → Value → Result Value
  unfolding assert_unique
  checked_resolver resolver name db local remote = do
    resolved ← resolver local remote
    assert_unique p.stringify (definitions_of name db.definitions) resolved (property "id" resolved)
        (all_records name db.base)
    ok resolved

  unfoldable pub after_replication :
      String → Result Outcome × Database → IndexedDatabase → Result Outcome × IndexedDatabase
  unfolding rebuild_collection
  after_replication name (err e, base) db = (err e, record db { base = base })
  after_replication name (ok (applied event), base) db =
      let (built, next) = rebuild_collection p.stringify name (record db { base = base }) in
      elim built [ err e ↦ (err e, next) | ok _ ↦ (ok (applied event), next) ]
  after_replication name (ok duplicate, base) db = (ok duplicate, record db { base = base })

  -- `legacy` gives the identity of a change that has none.
  unfoldable pub indexed_replication :
      (Value → Value → Result Value)
      → (Change → String)
      → Change
      → IndexedDatabase
      → Result Outcome × IndexedDatabase
  unfolding checked_resolver after_replication apply_replication_change
  indexed_replication resolver legacy change db =
      after_replication change.collection
        (apply_replication_change (checked_resolver resolver change.collection db) legacy p.digest
          io env change db.base)
        db
