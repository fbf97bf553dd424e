-- ===== src/Database/Replay.antt =====
-- src/index.js: applyEventToState, replayWal, readStateWithRecovery and open.
use syncio.Base.{
  ℕ, ◌+◌, String, Bool, true, false, ◌&&◌, ◌||◌, none, some, List, [], ◌∷◌, Result, ok, err, ◌>>=◌,
  ◌>>◌, require, type_error, wal_database_mismatch, wal_sequence_gap, corrupt_wal, corrupt_database,
  unsupported_event, missing_id, leb, eqb, ◌==◌, length, if◌then◌else◌, max_safe_integer,
}
use syncio.Base.Maps.{Map, put, delete}
use syncio.Json.{Value, validate_record, validate_collection_name, validate_id, get_field, truthy}
use syncio.Change.{Event}
use syncio.Wal.{Entry, Payload, LogFile, open_log, list_after}
use syncio.Database.State.{
  Collection, State, RawState, FileContent, missing, corrupted, holds, normalize_state,
  collection_of, Database, to_raw,
}
use syncio.Database.Events.{record_event, prune}

-- `collections[name][id] = record` and `delete collections[name][id]`
unfoldable pub store : String → String → Value → Map Collection → Map Collection
store name id body cs = put name (put id body (collection_of name cs)) cs

unfoldable pub erase : String → String → Map Collection → Map Collection
erase name id cs = put name (delete id (collection_of name cs)) cs

-- What an event does to the collections, once it is checked.
pub data Effect : Type 0 where
  erasing : String → Effect
  storing : String → Value → Effect

-- The checks read only the collection, the type, the identity and the record of an event.
unfoldable pub effect_of : String → String → Value → Value → Result Effect
effect_of collection type id body = do
  validate_collection_name collection
  if type == "remove" then (do id ← validate_id id; ok (erasing id)) else (do
    require (type == "insert" || type == "upsert") unsupported_event
    fields ← validate_record body
    require (truthy (get_field "id" fields)) missing_id
    id ← validate_id (get_field "id" fields)
    ok (storing id body))

unfoldable pub event_effect : Event → Result Effect
unfolding effect_of
event_effect e = effect_of e.collection e.type e.id e.body

abbrev pub run_effect : String → Effect → Map Collection → Map Collection
run_effect name (erasing id) cs = erase name id cs
run_effect name (storing id body) cs = store name id body cs

unfoldable pub apply_event : State → Event → Result State
apply_event s e = do
  effect ← event_effect e
  ok (record s { collections = run_effect e.collection effect s.collections })

-- The loop over the events of one entry; `expected` is the sequence before the first.
unfoldable pub replay_events : ℕ → State → List Event → Result (ℕ × State)
replay_events expected s [] = ok (expected, s)
replay_events expected s (e ∷ es) = do
  require (eqb e.sequence (expected + 1)) corrupt_wal
  s' ← apply_event s e
  replay_events (expected + 1) (record_event e s') es

unfoldable pub replay_entry : ℕ → State → Entry → Result State
replay_entry retention s entry = do
  require (entry.database_id == s.database_id) wal_database_mismatch
  if leb entry.result_sequence s.sequence then ok s else (do
    require (eqb entry.base_sequence s.sequence) wal_sequence_gap
    (expected, s') ← replay_events entry.base_sequence s entry.events
    require (eqb expected entry.result_sequence) corrupt_wal
    ok (prune retention (record s' { sequence = entry.result_sequence })))

unfoldable pub replay_wal : ℕ → State → List Entry → Result State
replay_wal retention s [] = ok s
replay_wal retention s (entry ∷ entries) = do
  s' ← replay_entry retention s entry
  replay_wal retention s' entries

-- What readStateWithRecovery loads, and whether the file exists. The backup serves only where the
-- primary file is there and does not parse.
unfoldable pub read_state : FileContent → FileContent → Result (RawState × Bool)
read_state missing backup = ok (
  record {
    version = some 1;
    collections = some [];
    database_id = none;
    sequence = none;
    changes = none;
    applied = none;
  },
  false,
)
read_state (holds raw) backup = ok (raw, true)
read_state corrupted (holds raw) = ok (raw, true)
read_state corrupted _ = err corrupt_database

-- open: load, normalise, write the file of a new database, open the log, and replay what lies behind
-- the checkpoint; the constructor checks the options last. What is replayed is normal already, so that
-- normalising it again changes nothing. `fresh` is a new identity.
module _ (digest : Payload → String) where
  unfoldable pub open_database :
      ℕ → ℕ → String → FileContent → FileContent → LogFile → Result Database
  open_database retention every fresh primary backup log = do
    (raw, exists) ← read_state primary backup
    let state = normalize_state raw none fresh
    wal ← open_log digest log
    let entries = list_after state.sequence wal.entries
    state' ← replay_wal retention state entries
    require (leb 1 retention && leb retention max_safe_integer) type_error
    require (leb 1 every && leb every max_safe_integer) type_error
    ok (record {
      state = state';
      change_retention = retention;
      checkpoint_every = every;
      wal = wal;
      primary = if exists then primary else holds (to_raw state);
      backup = if exists then backup else holds (to_raw state);
      commits_since_checkpoint = length entries;
      degraded = false;
      listeners = [];
      change_listeners = [];
    })
