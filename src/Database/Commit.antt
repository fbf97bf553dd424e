-- ===== src/Database/Commit.antt =====
-- src/index.js: commitDraft, checkpointNow, publish, replaceState and close.
use syncio.Base.{
  ◌+◌, String, Bool, true, false, ◌&&◌, none, some, List, [], ◌∷◌, ◌++◌, Result, ok, err, io_failed,
  leb, ltb, eqb, ◌==◌, if◌then◌else◌, map,
}
use syncio.Change.{Event}
use syncio.Wal.{
  Payload, Entry, WriteAheadLog, append, compact_through, reset, AppendOutcome, ReplaceOutcome,
}
use syncio.Database.State.{State, RawState, holds, to_raw, normalize_state, Watcher, Database}

-- What atomicWriteJson leaves of the file and of its backup, which it replaces one after the other: both
-- are new; neither is, or the file only, as something failed before or behind the first rename; or both
-- are, and something failed behind the second.
pub data CheckpointOutcome : Type 0 where
  both_replaced neither_replaced file_replaced both_unconfirmed : CheckpointOutcome

-- What the file system does in one operation: with the appended line, with the checkpoint file and its
-- backup, and with the replacement of the log.
pub record Io : Type 0 where
  pub line : AppendOutcome
  pub checkpoint : CheckpointOutcome
  pub log : ReplaceOutcome

-- atomicWriteJson. What the files hold stands for the text that JSON.stringify makes of it.
unfoldable pub write_json : CheckpointOutcome → State → Database → Result (Unit {0}) × Database
write_json both_replaced s db =
    (ok tt, record db { primary = holds (to_raw s); backup = holds (to_raw s) })
write_json neither_replaced s db = (err io_failed, db)
write_json file_replaced s db = (err io_failed, record db { primary = holds (to_raw s) })
write_json both_unconfirmed s db =
    (err io_failed, record db { primary = holds (to_raw s); backup = holds (to_raw s) })

unfoldable pub compact : Io → Database → Result (Unit {0}) × Database
compact io db =
    let (r, wal) = compact_through io.log db.state.sequence db.wal in
    elim r [
      | err e ↦ (err e, record db { wal = wal })
      | ok remaining ↦
          (ok tt, record db { wal = wal; commits_since_checkpoint = remaining; degraded = false })
    ]

unfoldable pub checkpoint_now : Io → Database → Result (Unit {0}) × Database
checkpoint_now io db =
    if eqb db.commits_since_checkpoint 0
    then (ok tt, db)
    else let (r, db') = write_json io.checkpoint db.state db in
      elim r [ err e ↦ (err e, db') | ok _ ↦ compact io db' ]

-- `try { await checkpointNow() } catch (error) { lastCheckpointError = error }`
unfoldable pub try_checkpoint : Io → Database → Database
try_checkpoint io db =
    let (r, db') = checkpoint_now io db in
    elim r [ err e ↦ record db' { degraded = true } | ok _ ↦ db' ]

-- A listener of watchChanges drops what it has seen, and what is of another collection.
unfoldable pub wants : Watcher → Event → Bool
wants w e =
    ltb w.last_sequence e.sequence && elim w.collection [ none ↦ true | some c ↦ e.collection == c ]

unfoldable pub notify : Event → Watcher → Watcher
notify e w =
    if wants w e
    then record w { last_sequence = e.sequence; received = w.received ++ e ∷ [] }
    else w

unfoldable pub notify_listener : Event → String × Watcher → String × Watcher
notify_listener e (name, w) =
    (name, if e.collection == name then record w { received = w.received ++ e ∷ [] } else w)

-- publish, for the events of one commit in their order.
unfoldable pub publish : List Event → Database → Database
publish [] db = db
publish (e ∷ es) db = publish es (record db {
  listeners = map (notify_listener e) db.listeners;
  change_listeners = map (notify e) db.change_listeners;
})

-- commitDraft behind the append: the state is replaced only if the log has taken the events.
unfoldable pub after_append :
    Io → State → Database → Result Entry × WriteAheadLog → Result (Unit {0}) × Database
after_append io draft db (err e, wal) = (err e, record db { wal = wal })
after_append io draft db (ok entry, wal) =
    let committed : Database = record db {
      state = draft;
      wal = wal;
      commits_since_checkpoint = db.commits_since_checkpoint + 1;
    } in
    (
      ok tt,
      if leb db.checkpoint_every committed.commits_since_checkpoint
          then try_checkpoint io committed
          else committed,
    )

-- Nothing is published without a commit.
unfoldable pub after_commit :
    List Event → Result (Unit {0}) × Database → Result (Unit {0}) × Database
after_commit events (err e, db) = (err e, db)
after_commit events (ok _, db) = (ok tt, publish events db)

module _ (digest : Payload → String) (io : Io) where
  unfoldable pub commit_draft : State → List Event → Database → Result (Unit {0}) × Database
  unfolding after_append
  commit_draft draft events db =
      after_append io draft db
        (append digest io.line db.state.database_id db.state.sequence draft.sequence events db.wal)

  -- The tail that the write operations share: nothing is committed without an event.
  unfoldable pub commit_events : State → List Event → Database → Result (Unit {0}) × Database
  unfolding after_commit
  commit_events draft [] db = (ok tt, db)
  commit_events draft (e ∷ es) db = after_commit (e ∷ es) (commit_draft draft (e ∷ es) db)

unfoldable pub reset_log : Io → Database → Database
reset_log io db =
    let (r, wal) = reset io.log db.wal in
    elim r [
      | err e ↦ record db { wal = wal; degraded = true }
      | ok _ ↦ record db { wal = wal; commits_since_checkpoint = 0; degraded = false }
    ]

-- replaceState: the file first, then the state in memory, then an empty log.
unfoldable pub replace_state : Io → RawState → String → Database → Result (Unit {0}) × Database
replace_state io next fresh db =
    let replacement = normalize_state next (some db.state.database_id) fresh in
    let (r, db') = write_json io.checkpoint replacement db in
    elim r [
      | err e ↦ (err e, db')
      | ok _ ↦ (ok tt, reset_log io (record db' { state = replacement }))
    ]

unfoldable pub close : Io → Database → Result (Unit {0}) × Database
close io db = if ltb 0 db.commits_since_checkpoint then checkpoint_now io db else (ok tt, db)
