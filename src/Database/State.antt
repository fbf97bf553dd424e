-- ===== src/Database/State.antt =====
-- src/index.js: the state of a database, the files that hold it, and normalizeState.
use syncio.Base.{
  ℕ, String, Bool, Option, none, some, List, [], ◌∷◌, leb, ◌==◌, ◌&&◌, if◌then◌else◌,
  max_safe_integer,
}
use syncio.Base.Maps.{Map, get, put}
use syncio.Json.{Value}
use syncio.Change.{Event}
use syncio.Wal.{WriteAheadLog}

abbrev pub Collection : Type 0
Collection = Map Value

-- `state`: `version`, `collections`, and the fields of `_syncio`.
pub record State : Type 0 where
  pub version : ℕ
  pub collections : Map Collection
  pub database_id : String
  pub sequence : ℕ
  pub changes : List Event
  pub applied : Map ℕ

-- What a file may hold in place of a state: `none` is a field that is absent or of another type.
-- The changes of a file are taken to have the fields of `Event`; an absent changeId reads as "".
pub record RawState : Type 0 where
  pub version : Option ℕ
  pub collections : Option (Map Collection)
  pub database_id : Option String
  pub sequence : Option ℕ
  pub changes : Option (List Event)
  pub applied : Option (Map ℕ)

pub data FileContent : Type 0 where
  missing corrupted : FileContent
  holds : RawState → FileContent

-- What a file holds once a state was written to it: its text, of which JSON.parse makes the state again
-- where JSON keeps every value. What the database checks before it commits is kept but for a negative
-- zero; replaceState checks no record.
abbrev pub to_raw : State → RawState
to_raw s = record {
  version = some s.version;
  collections = some s.collections;
  database_id = some s.database_id;
  sequence = some s.sequence;
  changes = some s.changes;
  applied = some s.applied;
}

normal_version : Option ℕ → ℕ
normal_version none = 1
normal_version (some v) = if leb 1 v && leb v max_safe_integer then v else 1

normal_sequence : Option ℕ → ℕ
normal_sequence none = 0
normal_sequence (some n) = if leb n max_safe_integer then n else 0

-- Object.fromEntries: a later entry replaces an earlier one of its key.
applied_of : Map ℕ → List Event → Map ℕ
applied_of m [] = m
applied_of m (e ∷ es) =
    applied_of (if e.change_id == "" then m else put e.change_id e.sequence m) es

abbrev pub or_else {ℓ} : {A : Type ℓ} → Option A → A → A
or_else none d = d
or_else (some a) d = a

-- `preferred` is the identity that the caller passes, `fresh` a new random one.
unfoldable pub normalize_state : RawState → Option String → String → State
unfolding normal_version normal_sequence applied_of
normalize_state raw preferred fresh =
    let changes : List Event = or_else raw.changes [] in
    record {
      version = normal_version raw.version;
      collections = or_else raw.collections [];
      database_id = or_else raw.database_id (or_else preferred fresh);
      sequence = normal_sequence raw.sequence;
      changes = changes;
      applied = or_else raw.applied (applied_of [] changes);
    }

-- `collections[name] ??= {}`, read.
unfoldable pub collection_of : String → Map Collection → Collection
collection_of name cs = or_else (get name cs) []

-- One receiver of changes: `collection` and `last_sequence` are those of watchChanges, or `none`
-- and 0 for a plain watch; `received` is what its listener was called with, oldest first.
pub record Watcher : Type 0 where
  pub collection : Option String
  pub last_sequence : ℕ
  pub received : List Event

pub record Database : Type 0 where
  pub state : State
  pub change_retention : ℕ
  pub checkpoint_every : ℕ
  pub wal : WriteAheadLog
  pub primary : FileContent
  pub backup : FileContent
  pub commits_since_checkpoint : ℕ
  pub degraded : Bool
  pub listeners : List (String × Watcher)
  pub change_listeners : List Watcher
