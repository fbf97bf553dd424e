-- ===== src/Database/Replace.antt =====
-- Replacing the whole state (src/index.js: replaceState, normalizeState, open).
use syncio.Base.{
  ℕ, ◌≤◌, ◌≡◌, refl, ap, String, Option, none, some, false, [], ok, arith, le→leb, max_safe_integer,
  ◌∷◌, All, map, true,
}
use mathlib.Core.Option
use syncio.Base.Maps.{Map}
use syncio.Json.{Value}
use syncio.Json.Text.{is_exact, KeepsExact, IsExactEvent, parsed_event, parsed_events-exact}
use syncio.Wal.Written.{parsed_file}
use syncio.Wal.{Payload, open_log, read_entries, reset, list_after, replaced, file_of}
use syncio.Database.State.{
  State, RawState, FileContent, missing, corrupted, holds, Database, Collection, normalize_state,
  to_raw,
}
use syncio.Database.Replay.{open_database, read_state, replay_wal}
use syncio.Database.Commit.{Io, both_replaced, replace_state, reset_log, write_json}
use syncio.Database.Recovery.{IsStorable, normalize_state-to_raw}

-- What normalizeState gives can be stored.
pub normalize_state-IsStorable :
    (raw : RawState) (preferred : Option String) (fresh : String)
    → IsStorable (normalize_state raw preferred fresh)
unfolding normalize_state
normalize_state-IsStorable raw preferred fresh = record {
  version_pos = ground arith;
  version_safe = ground arith;
  sequence_safe = ground arith;
}

module _ (next : RawState) (fresh : String) (db : Database) where
  abbrev replacement : State
  replacement = normalize_state next (some db.state.database_id) fresh

  abbrev replaced_db : Database
  replaced_db = record db {
    state = replacement;
    wal = record { file = file_of []; entries = [] };
    primary = holds (to_raw replacement);
    backup = holds (to_raw replacement);
    commits_since_checkpoint = 0;
    degraded = false;
  }

  same_io :
      (io : Io)
      → io.checkpoint ≡ both_replaced
      → io.log ≡ replaced
      → io ≡ record io { checkpoint = both_replaced; log = replaced }
  same_io io file log = λ i. record io { checkpoint = file i; log = log i }

  replace_state-done :
      (io : Io)
      → io.checkpoint ≡ both_replaced
      → io.log ≡ replaced
      → replace_state io next fresh db ≡ (ok tt, replaced_db)
  unfolding replace_state reset_log write_json reset
  replace_state-done io file log = ap (λ io. replace_state io next fresh db) (same_io io file log)

  replacement-opens :
      (digest : Payload → String) (every : ℕ) (fresh' : String)
      → 1 ≤ db.change_retention
      → db.change_retention ≤ max_safe_integer
      → 1 ≤ every
      → every ≤ max_safe_integer
      → (now : Database) × (open_database digest db.change_retention every fresh'
            replaced_db.primary replaced_db.backup replaced_db.wal.file
          ≡ ok now)
        × (now.state ≡ replacement)
  unfolding open_database read_state open_log read_entries replay_wal list_after
  replacement-opens digest every fresh' r₁ r₂ e₁ e₂ = (
    record replaced_db { checkpoint_every = every; listeners = []; change_listeners = [] },
    rw (
      le→leb 1 db.change_retention r₁,
      le→leb db.change_retention max_safe_integer r₂,
      le→leb 1 every e₁,
      le→leb every max_safe_integer e₂,
      normalize_state-to_raw replacement none fresh'
          (normalize_state-IsStorable next (some db.state.database_id) fresh),
    ),
    refl,
  )

-- The records of a collection, and those of a state with its events, are values that JSON keeps.
abbrev pub IsExactRecord : String × Value → Type 0
IsExactRecord entry = is_exact entry.1 ≡ true

abbrev pub IsExactCollection : String × Collection → Type 0
IsExactCollection entry = All IsExactRecord entry.1

abbrev pub IsExactState : State → Type 0
IsExactState s = All IsExactCollection s.collections × All IsExactEvent s.changes

module _ (json : Value → Value) where
  abbrev pub parsed_record : String × Value → String × Value
  parsed_record (id, v) = (id, json v)

  abbrev pub parsed_collection : String × Collection → String × Collection
  parsed_collection (name, records) = (name, map parsed_record records)

  abbrev pub parsed_raw : RawState → RawState
  parsed_raw raw = record raw {
    collections = Option.map (map parsed_collection) raw.collections;
    changes = Option.map (map (parsed_event json)) raw.changes;
  }

  -- The text of a file as JSON.parse reads it.
  abbrev pub parsed_content : FileContent → FileContent
  parsed_content missing = missing
  parsed_content corrupted = corrupted
  parsed_content (holds raw) = holds (parsed_raw raw)

module _ (json : Value → Value) (keeps : KeepsExact json) where
  parsed_records-exact : (c : Collection) → All IsExactRecord c → map (parsed_record json) c ≡ c
  parsed_records-exact [] exact = refl
  parsed_records-exact ((id, v) ∷ c) (here, there) =
      rw (keeps v here, parsed_records-exact c there) refl

  parsed_collections-exact :
      (cs : Map Collection) → All IsExactCollection cs → map (parsed_collection json) cs ≡ cs
  parsed_collections-exact [] exact = refl
  parsed_collections-exact ((name, c) ∷ cs) (here, there) =
      rw (parsed_records-exact c here, parsed_collections-exact cs there) refl

  parsed_raw-to_raw : (s : State) → IsExactState s → parsed_raw json (to_raw s) ≡ to_raw s
  parsed_raw-to_raw s (records, events) =
      let cs = parsed_collections-exact s.collections records in
      let es = parsed_events-exact json keeps s.changes events in
      λ i. record (to_raw s) { collections = some (cs i); changes = some (es i) }

  -- When the file system does what it is asked, replacing the state succeeds, and opening the text of
  -- the files gives exactly the state that is then in memory, if the options are in range and the
  -- records and the events that the replacement normalises to are values that JSON keeps.
  pub open_database-replace_state :
      (digest : Payload → String) (io : Io) (next : RawState) (fresh fresh' : String)
      (db : Database) (every : ℕ)
      → io.checkpoint ≡ both_replaced
      → io.log ≡ replaced
      → IsExactState (normalize_state next (some db.state.database_id) fresh)
      → 1 ≤ db.change_retention
      → db.change_retention ≤ max_safe_integer
      → 1 ≤ every
      → every ≤ max_safe_integer
      → ((replace_state io next fresh db).0 ≡ ok tt)
        × (now : Database) × (open_database digest db.change_retention every fresh'
              (parsed_content json (replace_state io next fresh db).1.primary)
              (parsed_content json (replace_state io next fresh db).1.backup)
              (parsed_file json (replace_state io next fresh db).1.wal.file)
            ≡ ok now)
        × (now.state ≡ (replace_state io next fresh db).1.state)
  open_database-replace_state digest io next fresh fresh' db every file log exact r₁ r₂ e₁ e₂ =
      let opens = replacement-opens next fresh db digest every fresh' r₁ r₂ e₁ e₂ in
      let kept = parsed_raw-to_raw (normalize_state next (some db.state.database_id) fresh) exact in
      rw (replace_state-done next fresh db io file log, kept) (refl, opens.0, opens.1, opens.2)
