-- ===== src/Database/Feed.antt =====
-- src/index.js: changesSince, resumeStatus and watchChanges.
pub mod Changes
pub mod Delivery
pub mod Examples
use syncio.Base.{
  ℕ, ◌+◌, ◌-◌, String, Bool, true, false, not, ◌&&◌, Option, none, some, List, [], ◌∷◌, ◌++◌,
  Result, ok, err, ◌>>=◌, ◌>>◌, require, type_error, cursor_ahead, cursor_expired, leb, ltb, ◌==◌,
  select, take, if◌then◌else◌, max_safe_integer,
}
use syncio.Json.{validate_collection_name}
use syncio.Change.{Event}
use syncio.Database.State.{State, Watcher, Database}

unfoldable pub validate_optional_name : Option String → Result (Unit {0})
validate_optional_name none = ok tt
validate_optional_name (some name) = validate_collection_name name

-- `collection === undefined || change.collection === collection`
unfoldable pub is_of : Option String → Event → Bool
is_of none e = true
is_of (some name) e = e.collection == name

-- changesSince. `filter` comes first, so the limit counts the changes of the collection.
unfoldable pub changes_since : ℕ → ℕ → Option String → Database → Result (List Event)
changes_since cursor limit collection db = do
  require (leb cursor max_safe_integer) type_error
  require (leb 1 limit && leb limit 10000) type_error
  validate_optional_name collection
  ok (take limit (select (λ e. ltb cursor e.sequence && is_of collection e) db.state.changes))

pub record ResumeStatus : Type 0 where
  pub cursor : ℕ
  pub sequence : ℕ
  pub oldest_retained : ℕ
  pub resumable : Bool

-- `changes[0]?.sequence ?? sequence + 1`
unfoldable pub oldest : ℕ → List Event → ℕ
oldest sequence [] = sequence + 1
oldest sequence (e ∷ es) = e.sequence

-- `cursor >= oldestRetained - 1`: on ℕ the difference stops at 0, which every cursor reaches too.
unfoldable pub resume_status : ℕ → Database → Result ResumeStatus
resume_status cursor db = do
  require (leb cursor max_safe_integer) type_error
  let retained = oldest db.state.sequence db.state.changes
  ok (record {
    cursor = cursor;
    sequence = db.state.sequence;
    oldest_retained = retained;
    resumable = leb (retained - 1) cursor && leb cursor db.state.sequence;
  })

-- The loop over the changes behind the cursor.
unfoldable pub catch_up : List Event → Watcher → Watcher
catch_up [] w = w
catch_up (e ∷ es) w =
    catch_up es (record w { last_sequence = e.sequence; received = w.received ++ e ∷ [] })

-- watchChanges gives the watcher that it adds. It runs to its end before any other code does, so
-- nothing is published while it runs: `buffered` stays empty, and so does what `highWater` cuts off.
unfoldable pub watch_changes : Option String → ℕ → Database → Result Watcher
watch_changes collection after db = do
  validate_optional_name collection
  require (leb after max_safe_integer) type_error
  status ← resume_status after db
  require status.resumable (if ltb db.state.sequence after then cursor_ahead else cursor_expired)
  replay ← changes_since after 10000 collection db
  ok (
      catch_up (select (λ e. leb e.sequence db.state.sequence) replay)
        (record { collection = collection; last_sequence = after; received = [] }))

-- The database with a watcher added.
unfoldable pub add_watcher : Watcher → Database → Database
add_watcher w db = record db { change_listeners = w ∷ db.change_listeners }
