-- ===== src/Database/Replication.antt =====
-- src/index.js: applyReplicationChange and hasAppliedChange.
pub mod Decided
pub mod Duplicates
pub mod Replayed
pub mod Written
pub mod Divergence
pub mod Examples
use syncio.Base.{
  ℕ, String, Bool, true, false, not, ◌&&◌, Option, none, some, List, [], ◌∷◌, Error, Result, ok,
  err, missing_id, ◌>>=◌, ◌>>◌, require, eqb, ◌==◌, if◌then◌else◌,
}
use syncio.Base.Maps.{Map, get}
use syncio.Json.{
  Value, null, Fields, truthy, get_field, validate_record, validate_collection_name, validate_id,
}
use syncio.Change.{Change, Event}
use syncio.Wal.{Payload}
use syncio.Database.State.{Collection, State, Database, collection_of}
use syncio.Database.Events.{Env, append_change}
use syncio.Database.Replay.{store, erase}
use syncio.Database.Commit.{Io}
use syncio.Database.Collection.{Write, perform}

-- What the caller is told: that the change was applied before, or the event that now applies it.
pub data Outcome : Type 0 where
  duplicate : Outcome
  applied : Event → Outcome

-- `Boolean(appliedChangeIds[changeId])`
unfoldable pub is_applied : String → State → Bool
is_applied id s = elim (get id s.applied) [ none ↦ false | some n ↦ not (eqb n 0) ]

unfoldable pub has_applied_change : String → Database → Bool
unfolding is_applied
has_applied_change id db = not (id == "") && is_applied id db.state

-- `collection[id] ?? null`
abbrev pub or_null : Option Value → Value
or_null none = null
or_null (some v) = v

-- The resolver is the caller's; it may throw. `legacy` is legacyChangeId of the change, a digest.
module _ (resolver : Value → Value → Result Value) (legacy : Change → String) where
  unfoldable pub change_id_of : Change → String
  change_id_of c = elim c.change_id [ none ↦ legacy c | some id ↦ id ]

  -- `{ ...normalizedChange, source: 'replication', receivedAt }`
  abbrev pub received_change : Env → Change → Change
  received_change env c = record c {
    change_id = some (change_id_of c);
    source = some "replication";
    received_at = some env.now;
  }

  -- The record that is stored for an incoming one, under its own identity.
  unfoldable pub resolve : Collection → Value → Result (String × Value)
  resolve collection incoming = do
    fields ← validate_record incoming
    require (truthy (get_field "id" fields)) missing_id
    id ← validate_id (get_field "id" fields)
    resolved ← resolver (or_null (get id collection)) incoming
    resolved_fields ← validate_record resolved
    require (truthy (get_field "id" resolved_fields)) missing_id
    resolved_id ← validate_id (get_field "id" resolved_fields)
    ok (resolved_id, resolved)

  unfoldable pub replicated : Change → Map Collection → Result (Map Collection)
  replicated c cs =
      if c.type == "remove" then (do id ← validate_id c.id; ok (erase c.collection id cs)) else (do
        stored ← resolve (collection_of c.collection cs) c.body
        ok (store c.collection stored.0 stored.1 cs))

  unfoldable pub decide_replication : ℕ → Env → Change → State → Result (Write Outcome)
  decide_replication retention env c s = do
    validate_collection_name c.collection
    if is_applied (change_id_of c) s
        then ok (record { draft = s; events = []; result = duplicate })
        else (do
          cs ← replicated c s.collections
          let made =
              append_change retention env true (record s { collections = cs })
                (received_change env c)
          ok (record { draft = made.1; events = made.0 ∷ []; result = applied made.0 }))

  unfoldable pub apply_replication_change :
      (Payload → String) → Io → Env → Change → Database → Result Outcome × Database
  apply_replication_change digest io env c db =
      perform digest io (decide_replication db.change_retention env c db.state) db
