-- ===== src/Database/Recovery.antt =====
-- What a crash leaves and what opening gives back (src/index.js: open, commitDraft, checkpointNow).
pub mod Checkpoint
pub mod Commit
use syncio.Base.{
  ℕ, ◌+◌, ◌≤◌, ◌<◌, ◌≡◌, refl, sym, ap, ◌∙◌, String, Bool, true, false, Option, none, some, List,
  [], ◌∷◌, ◌++◌, Result, ok, err, ◌>>=◌, ◌>>◌, arith, leb, ltb, le→leb, lt→ltb, length,
  if◌then◌else◌, max_safe_integer,
}
use syncio.Wal.{Entry, Payload, LogFile, WriteAheadLog, open_log, read_entries, list_after, file_of}
use syncio.Wal.Chain.{Chain, chain_end, list_after-end}
use syncio.Wal.File.{AllSound, read_entries-file_of}
use syncio.Database.State.{State, RawState, FileContent, holds, to_raw, normalize_state, Database}
use syncio.Database.History.{IsOrdered, last_sequence}
use syncio.Base.Maps.{get}
use syncio.Database.Replay.{replay_entry, replay_wal, read_state, open_database}
use syncio.Database.Same.{Equality, Same, Same-refl}

-- A state that normalizeState leaves as it is: its version and sequence are safe integers.
pub record IsStorable (s : State) : Type 0 where
  pub version_pos : 1 ≤ s.version
  pub version_safe : s.version ≤ max_safe_integer
  pub sequence_safe : s.sequence ≤ max_safe_integer

-- Writing a state whose version and sequence are in their range to a file and normalising what is read
-- gives the state back.
pub normalize_state-to_raw :
    (s : State) (preferred : Option String) (fresh : String)
    → IsStorable s
    → normalize_state (to_raw s) preferred fresh ≡ s
unfolding normalize_state
normalize_state-to_raw s preferred fresh h = ground arith

module _ (q : Equality) (digest : Payload → String) where
  -- The files hold the database: the checkpoint and the entries behind it replay to a state that holds
  -- the same as the state in memory, and both the file's and memory's entries end at its sequence.
  pub record IsDurable (retention : ℕ) (s : State) (wal : WriteAheadLog) (primary : FileContent)
      : Type 0 where
    pub storable : IsStorable s
    pub ordered : IsOrdered s
    pub checkpoint : State
    pub held : primary ≡ holds (to_raw checkpoint)
    pub checkpoint_storable : IsStorable checkpoint
    pub behind : checkpoint.sequence ≤ s.sequence
    pub base : ℕ
    pub stored : List Entry
    pub file : wal.file ≡ file_of stored
    pub chained : Chain base stored
    pub sound : AllSound digest stored
    pub ends : chain_end base stored ≡ s.sequence
    pub recovered : State
    pub replayed :
        replay_wal retention checkpoint (list_after checkpoint.sequence stored) ≡ ok recovered
    pub same : Same q recovered s
    pub recovered_ordered : IsOrdered recovered
    pub memory_base : ℕ
    pub memory_chained : Chain memory_base wal.entries
    pub memory_ends : chain_end memory_base wal.entries ≡ s.sequence

  abbrev pub Durable : Database → Type 0
  Durable db = IsDurable db.change_retention db.state db.wal db.primary

  -- Opening the files of a durable database, with a torn tail behind the log or without one, gives a
  -- state that holds the same.
  module _ (db : Database) (every : ℕ) (fresh : String) (backup : FileContent) (torn : Bool)
      (d : Durable db) (r₁ : 1 ≤ db.change_retention) (r₂ : db.change_retention ≤ max_safe_integer)
      (e₁ : 1 ≤ every) (e₂ : every ≤ max_safe_integer) where
    abbrev crashed : LogFile
    crashed = record db.wal.file { torn = torn }

    abbrev opened : Database
    opened = record {
      state = d.recovered;
      change_retention = db.change_retention;
      checkpoint_every = every;
      wal = record { file = crashed; entries = d.stored };
      primary = db.primary;
      backup = backup;
      commits_since_checkpoint = length (list_after d.checkpoint.sequence d.stored);
      degraded = false;
      listeners = [];
      change_listeners = [];
    }

    open_log-crashed : open_log digest crashed ≡ ok (record { file = crashed; entries = d.stored })
    unfolding open_log
    open_log-crashed =
        let read : read_entries digest crashed ≡ ok d.stored =
          rw (d.file) (read_entries-file_of digest d.base d.stored d.chained d.sound torn) in
        rw (read, open_log)

    open_database-opened :
        open_database digest db.change_retention every fresh db.primary backup crashed ≡ ok opened
    unfolding open_database read_state
    open_database-opened = rw (
      d.held,
      open_database,
      le→leb 1 db.change_retention r₁,
      le→leb db.change_retention max_safe_integer r₂,
      le→leb 1 every e₁,
      le→leb every max_safe_integer e₂,
      normalize_state-to_raw d.checkpoint none fresh d.checkpoint_storable,
      open_log-crashed,
      d.replayed,
    )

  -- After a crash at rest, or in the middle of writing a log line, opening the files succeeds with
  -- options in their range, and the new state holds what the state in memory held: the same version,
  -- identity, sequence and history, the same records, and the same applied changes.
  pub open_database-Same :
      (db : Database) (every : ℕ) (fresh : String) (backup : FileContent) (torn : Bool)
      → Durable db
      → 1 ≤ db.change_retention
      → db.change_retention ≤ max_safe_integer
      → 1 ≤ every
      → every ≤ max_safe_integer
      → (now : Database) × (open_database digest db.change_retention every fresh db.primary backup
            (record db.wal.file { torn = torn })
          ≡ ok now)
        × Same q now.state db.state
        × ((id : String) → get id now.state.applied ≡ get id db.state.applied)
  open_database-Same db every fresh backup torn d r₁ r₂ e₁ e₂ = (
    opened db every fresh backup torn d r₁ r₂ e₁ e₂,
    open_database-opened db every fresh backup torn d r₁ r₂ e₁ e₂,
    d.same,
    λ id.
        d.recovered_ordered.applied id
        ∙ ap (last_sequence id) d.same.changes
        ∙ sym (d.ordered.applied id),
  )
