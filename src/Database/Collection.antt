-- ===== src/Database/Collection.antt =====
-- src/index.js: the operations of `collection(name)` and the `#mutate` behind its writes.
use syncio.Base.{
  ℕ, String, Bool, true, false, not, Option, none, some, List, [], ◌∷◌, Result, ok, err, type_error,
  record_exists, ◌>>=◌, ◌>>◌, require, if◌then◌else◌,
}
use syncio.Base.Maps.{Map, get, values}
use syncio.Json.{
  Value, undefined, null, str, obj, truthy, get_field, set_field, validate_record,
  validate_collection_name, validate_id,
}
use syncio.Change.{Change, Event}
use syncio.Wal.{Payload}
use syncio.Database.State.{Collection, State, Database, collection_of}
use syncio.Database.Events.{Env, append_change}
use syncio.Database.Replay.{store, erase}
use syncio.Database.Commit.{Io, commit_events}

abbrev pub some_or_undefined : Option Value → Value
some_or_undefined none = undefined
some_or_undefined (some v) = v

-- `collection[id]`
unfoldable pub read : String → String → Map Collection → Value
read name id cs = some_or_undefined (get id (collection_of name cs))

-- A change that a local write asks for.
abbrev pub local_change : String → String → String → Value → Change
local_change name type id body = record {
  collection = name;
  type = type;
  id = str id;
  body = body;
  change_id = none;
  origin = none;
  source_sequence = none;
  sequence = none;
  at = none;
  source = none;
  received_at = none;
}

-- `value.id ?? fresh`
unfoldable pub id_or : String → Value → Value
id_or fresh undefined = str fresh
id_or fresh null = str fresh
id_or fresh v = v

-- A write that has been decided: the draft, what to report of it, and the event if there is one.
pub record Write (A : Type 0) : Type 0 where
  pub draft : State
  pub events : List Event
  pub result : A

unfoldable pub event_write : {A : Type 0} → ℕ → Env → State → Map Collection → Change → A → Write A
event_write retention env s cs change result =
    let (e, draft) = append_change retention env false (record s { collections = cs }) change in
    record { draft = draft; events = e ∷ []; result = result }

unfoldable pub decide_insert : ℕ → Env → String → Value → State → Result (Write Value)
decide_insert retention env name value s = do
  validate_collection_name name
  fields ← validate_record value
  id ← validate_id (id_or env.record_id (get_field "id" fields))
  let body = obj (set_field "id" (str id) fields)
  require (not (truthy (read name id s.collections))) record_exists
  ok (
      event_write retention env s (store name id body s.collections)
        (local_change name "insert" id body) body)

unfoldable pub decide_upsert : ℕ → Env → String → Value → State → Result (Write Value)
decide_upsert retention env name value s = do
  validate_collection_name name
  fields ← validate_record value
  require (truthy (get_field "id" fields)) type_error
  id ← validate_id (get_field "id" fields)
  ok (
      event_write retention env s (store name id value s.collections)
        (local_change name "upsert" id value) value)

-- A record that is not there makes no event, and the draft is dropped.
unfoldable pub decide_remove : ℕ → Env → String → Value → State → Result (Write Bool)
decide_remove retention env name id_value s = do
  validate_collection_name name
  id ← validate_id id_value
  if truthy (read name id s.collections)
      then ok (
          event_write retention env s (erase name id s.collections)
            (local_change name "remove" id undefined) true)
      else ok (record { draft = s; events = []; result = false })

-- What an operation reports: its result if the commit succeeded.
unfoldable pub report : {A : Type 0} → A → Result (Unit {0}) × Database → Result A × Database
report result (err e, db) = (err e, db)
report result (ok _, db) = (ok result, db)

module _ (digest : Payload → String) (io : Io) where
  -- A decided write is committed and published.
  unfoldable pub perform : {A : Type 0} → Result (Write A) → Database → Result A × Database
  unfolding report
  perform (err e) db = (err e, db)
  perform (ok w) db = report w.result (commit_events digest io w.draft w.events db)

  unfoldable pub insert : Env → String → Value → Database → Result Value × Database
  insert env name value db = perform (decide_insert db.change_retention env name value db.state) db

  unfoldable pub upsert : Env → String → Value → Database → Result Value × Database
  upsert env name value db = perform (decide_upsert db.change_retention env name value db.state) db

  unfoldable pub remove : Env → String → Value → Database → Result Bool × Database
  remove env name id db = perform (decide_remove db.change_retention env name id db.state) db

-- `get` and `all` of a collection whose name was checked: `value ? structuredClone(value) : null`
unfoldable pub get_record : String → String → Database → Value
get_record name id db = let v = read name id db.state.collections in if truthy v then v else null

unfoldable pub all_records : String → Database → List Value
all_records name db = values (collection_of name db.state.collections)

unfoldable pub watch : String → Database → Database
watch name db = record db {
  listeners = (name, record { collection = none; last_sequence = 0; received = [] }) ∷ db.listeners;
}
