-- ===== src/DocumentApi.antt =====
-- src/document-api.js: updates of a stored document in a transaction, and aggregation of a collection.
mod Examples
use syncio.Base.{
  String, Bool, true, false, not, ◌&&◌, List, [], ◌∷◌, Result, ok, err, type_error,
  document_not_found, id_changed, ◌>>=◌, ◌>>◌, require, ◌==◌, if◌then◌else◌,
}
use syncio.Json.{
  Value, undefined, null, str, obj, Fields, end, field, get_field, set_field, truthy,
  validate_collection_name,
}
use syncio.Wal.{Payload}
use syncio.Database.State.{Database}
use syncio.Database.Events.{Env}
use syncio.Database.Same.{Equality}
use syncio.Database.Commit.{Io}
use syncio.Database.Collection.{all_records}
use syncio.Database.Transaction.{Work, finish, throw, tx_get, tx_put, transaction}
use syncio.Document.Runtime.{Runtime}
use syncio.Document.Update.{apply_document_update}
use syncio.Document.Aggregate.{aggregate_documents}
use syncio.Control.Records.{or_throw, is_text}

-- `current ?? { id }`
abbrev pub base_document : String → Value → Value
base_document id null = obj (field "id" (str id) end)
base_document id v = v

-- `if (!updated.id) updated.id = id`
abbrev pub with_id : String → Fields → Fields
with_id id fs = if truthy (get_field "id" fs) then fs else set_field "id" (str id) fs

-- A record of a collection is a plain object.
abbrev pub rows_of : List Value → List Fields
rows_of [] = []
rows_of (obj fs ∷ vs) = fs ∷ rows_of vs
rows_of (_ ∷ vs) = rows_of vs

module _ (rt : Runtime) where
  unfoldable pub updated_document : String → Value → Value → Result Fields
  unfolding apply_document_update get_field set_field truthy
  updated_document id current update = do
    fs ← apply_document_update rt (base_document id current) update
    require (is_text id (get_field "id" (with_id id fs))) id_changed
    ok (with_id id fs)

  unfoldable pub atomic_update_work : String → String → Value → Bool → Work
  unfolding updated_document truthy
  atomic_update_work name id update upsert = tx_get name (str id) (
      or_throw λ current.
        if not (truthy current) && not upsert
        then throw document_not_found
        else or_throw (λ fs. tx_put name (obj fs) (or_throw λ put. finish (obj fs)))
            (updated_document id current update))

  unfoldable pub atomic_update_document :
      Equality
      → (Payload → String)
      → Io
      → Env
      → String
      → String
      → Value
      → Bool
      → Database
      → Result Value × Database
  unfolding atomic_update_work transaction
  atomic_update_document q digest io env name id update upsert db =
      if not (name == "") && not (id == "")
      then transaction q digest io env (atomic_update_work name id update upsert) db
      else (err type_error, db)

  unfoldable pub aggregate_collection : String → List Value → Database → Result (List Fields)
  unfolding all_records aggregate_documents validate_collection_name
  aggregate_collection name pipeline db = do
    validate_collection_name name
    aggregate_documents rt pipeline (rows_of (all_records name db))
