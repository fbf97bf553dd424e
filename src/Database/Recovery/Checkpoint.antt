-- ===== src/Database/Recovery/Checkpoint.antt =====
-- A checkpoint keeps a durable database durable, whatever the file system does
-- (src/index.js: checkpointNow, atomicWriteJson; src/wal.js: compactThrough).
use native.Mathlib.Nat.{le_refl}
use syncio.Base.{
  ℕ, ◌≡◌, refl, false, inl, inr, Bool-cases, Result-cases, String, List, [], arith, eqb,
}
use syncio.Wal.{
  Payload, Entry, WriteAheadLog, compact_through, list_after, replaced, kept, unconfirmed, file_of,
  ReplaceOutcome,
}
use syncio.Wal.Chain.{Chain, chain_end, list_after-end}
use syncio.Database.State.{State, FileContent, holds, to_raw, Database}
use syncio.Database.Replay.{replay_wal}
use syncio.Database.Same.{Equality, Same-refl}
use syncio.Database.Commit.{
  Io, CheckpointOutcome, both_replaced, neither_replaced, file_replaced, both_unconfirmed,
  write_json, compact, checkpoint_now, try_checkpoint,
}
use syncio.Database.Recovery.{IsDurable, Durable}

module _ (q : Equality) (digest : Payload → String) where
  module _ {retention : ℕ} {s : State} {wal : WriteAheadLog} {primary : FileContent} where
    -- The state itself as the checkpoint: no entry lies behind it.
    checkpointed :
        IsDurable q digest retention s wal primary
        → IsDurable q digest retention s wal (holds (to_raw s))
    unfolding replay_wal
    checkpointed d = record {
      storable = d.storable;
      ordered = d.ordered;
      checkpoint = s;
      held = refl;
      checkpoint_storable = d.storable;
      behind = le_refl s.sequence;
      base = d.base;
      stored = d.stored;
      file = d.file;
      chained = d.chained;
      sound = d.sound;
      ends = d.ends;
      recovered = s;
      replayed = rw (list_after-end d.base d.stored d.chained s.sequence (omega (arith, d.ends)));
      same = Same-refl q s;
      recovered_ordered = d.ordered;
      memory_base = d.memory_base;
      memory_chained = d.memory_chained;
      memory_ends = d.memory_ends;
    }

    -- An empty log file behind a checkpoint of the state.
    emptied :
        (entries : List Entry) (base : ℕ)
        → Chain base entries
        → chain_end base entries ≡ s.sequence
        → IsDurable q digest retention s wal primary
        → IsDurable q digest retention s
            (record { file = file_of []; entries = entries })
            (holds (to_raw s))
    unfolding replay_wal list_after
    emptied entries base chained ends d = record {
      storable = d.storable;
      ordered = d.ordered;
      checkpoint = s;
      held = refl;
      checkpoint_storable = d.storable;
      behind = le_refl s.sequence;
      base = s.sequence;
      stored = [];
      file = refl;
      chained = tt;
      sound = tt;
      ends = refl;
      recovered = s;
      replayed = refl;
      same = Same-refl q s;
      recovered_ordered = d.ordered;
      memory_base = base;
      memory_chained = chained;
      memory_ends = ends;
    }

  write_json-Durable :
      (outcome : CheckpointOutcome) (db : Database)
      → Durable q digest db
      → Durable q digest (write_json outcome db.state db).1
  unfolding write_json
  write_json-Durable both_replaced db d = checkpointed d
  write_json-Durable neither_replaced db d = d
  write_json-Durable file_replaced db d = checkpointed d
  write_json-Durable both_unconfirmed db d = checkpointed d

  compact_outcome-Durable :
      (io : Io) (outcome : ReplaceOutcome) (db : Database)
      → Durable q digest db
      → db.primary ≡ holds (to_raw db.state)
      → Durable q digest (compact (record io { log = outcome }) db).1
  unfolding compact compact_through
  compact_outcome-Durable io replaced db d held =
      rw
        (
          list_after-end d.memory_base db.wal.entries d.memory_chained db.state.sequence
              (omega (arith, d.memory_ends)),
          held,
        )
        (emptied [] db.state.sequence tt refl d)
  compact_outcome-Durable io kept db d held = d
  compact_outcome-Durable io unconfirmed db d held =
      rw
        (
          list_after-end d.memory_base db.wal.entries d.memory_chained db.state.sequence
              (omega (arith, d.memory_ends)),
          held,
        )
        (emptied db.wal.entries d.memory_base d.memory_chained d.memory_ends d)

  -- The log is compacted only behind a checkpoint of the state.
  compact-Durable :
      (io : Io) (db : Database)
      → Durable q digest db
      → db.primary ≡ holds (to_raw db.state)
      → Durable q digest (compact io db).1
  compact-Durable io db = compact_outcome-Durable io io.log db

  checkpoint_busy-Durable :
      (io : Io) (outcome : CheckpointOutcome) (db : Database)
      → eqb db.commits_since_checkpoint 0 ≡ false
      → Durable q digest db
      → Durable q digest (checkpoint_now (record io { checkpoint = outcome }) db).1
  unfolding checkpoint_now write_json
  checkpoint_busy-Durable io both_replaced db busy d =
      rw (busy, checkpoint_now)
        (compact-Durable (record io { checkpoint = both_replaced })
          (record db { primary = holds (to_raw db.state); backup = holds (to_raw db.state) })
          (checkpointed d) refl)
  checkpoint_busy-Durable io neither_replaced db busy d = rw (busy, checkpoint_now) d
  checkpoint_busy-Durable io file_replaced db busy d = rw (busy, checkpoint_now) (checkpointed d)
  checkpoint_busy-Durable io both_unconfirmed db busy d = rw (busy, checkpoint_now) (checkpointed d)

  -- A checkpoint keeps a durable database durable, whatever the file system does.
  pub checkpoint_now-Durable :
      (io : Io) (db : Database) → Durable q digest db → Durable q digest (checkpoint_now io db).1
  unfolding checkpoint_now
  checkpoint_now-Durable io db d = elim (Bool-cases (eqb db.commits_since_checkpoint 0)) [
    | inl idle ↦ rw (idle, checkpoint_now) d
    | inr busy ↦ checkpoint_busy-Durable io io.checkpoint db busy d
  ]

  pub try_checkpoint-Durable :
      (io : Io) (db : Database) → Durable q digest db → Durable q digest (try_checkpoint io db)
  unfolding try_checkpoint
  try_checkpoint-Durable io db d = elim (Result-cases (checkpoint_now io db).0) [
    | inl (_, done) ↦ rw (done, try_checkpoint) (checkpoint_now-Durable io db d)
    | inr (_, failed) ↦ rw (failed, try_checkpoint) (checkpoint_now-Durable io db d)
  ]
