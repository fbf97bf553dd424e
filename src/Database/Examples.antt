-- ===== src/Database/Examples.antt =====
-- Runs of the database on concrete inputs, and witnesses (src/index.js).
use syncio.Json.{
  validate_collection_name, valid_collection_name, validate_record, validate_id, get_field,
  valid_id, is_finite, json_fields, number_truthy, set_field,
}
use syncio.Base.Maps.{delete, put}
use syncio.Database.Collection.{
  perform, decide_insert, id_or, read, event_write, report, decide_upsert, decide_remove,
}
use syncio.Database.Commit.{
  commit_events, commit_draft, after_append, after_commit, compact, notify, notify_listener,
  publish, try_checkpoint, wants, write_json,
}
use syncio.Database.Events.{
  append_change, forget, is_applied_as, make_event, prune, record_event, append_changes,
}
use syncio.Database.Replay.{store, erase}
use syncio.Wal.{
  append, assert_sequence, check_append, compact_through, list_after, make_entry, nonempty,
}
use syncio.Database.Transaction.{
  decide_transaction, diff_collections, diff_names, diff_ids, diff_record, write_of, touch, get_in,
  put_in, remove_in, without, unique, place, sort, all_keys,
}
use syncio.Base.Maps.{Map}
use syncio.Database.State.{Collection, RawState, normalize_state}
use syncio.Database.Collection.{local_change}
use syncio.Database.Commit.{replace_state}
use syncio.Database.Recovery.Checkpoint.{checkpoint_now-Durable}
use syncio.Database.Durability.{insert-Durable}
use syncio.Database.Replace.{parsed_content, open_database-replace_state}
use syncio.Json.Text.{is_exact}
use syncio.Wal.Written.{parsed_file}
use syncio.Wal.Examples.{sample_json, sample_json-KeepsExact}
use syncio.Database.Transaction.Tracks.{run_work-Tracks}
use syncio.Database.Transaction.Diff.{diff_collections_lem}
use syncio.Database.Transaction.Steps.{change_effects}
use syncio.Database.Samples.{structural, digest, env, note, ok_io, full_disk, late_failure}
use syncio.Base.{
  ◌≡◌, ◌⊎◌, inl, inr, refl, String, true, false, none, some, List, [], ◌∷◌, io_failed, ok, err, All,
  arith,
}
use syncio.Base.Maps.{get}
use syncio.Json.{null, str, obj, end, field, bool, truthy, property}
use syncio.Wal.{synced, unwritten}
use syncio.Database.State.{missing, Database, collection_of}
use syncio.Database.Replay.{open_database}
use syncio.Database.Same.{Same, AlikeMaps}
use syncio.Database.Commit.{checkpoint_now}
use syncio.Database.Collection.{insert, upsert, remove}
use syncio.Database.Recovery.{Durable, open_database-Same}
use syncio.Database.Run.{
  Call, inserts, upserts, removes, transacts, checkpoints, run, created, run-reopen,
  created-Durable,
}
use syncio.Database.Durability.{transaction-Durable}
use syncio.Database.Transaction.{Work, finish, tx_get, tx_put, tx_remove, run_work, transaction}
use syncio.Database.Transaction.Atomic.{transaction-AlikeMaps, transaction-failed}
use syncio.Database.Writes.{insert-Updated, Updated}

abbrev moving : Work
moving =
    tx_get "notes" (str "r")
      λ got. tx_put "notes" (note "b") λ put. tx_remove "notes" (str "r") λ removed. finish null

abbrev calls : List Call
calls =
    record {
      io = ok_io;
      env = env;
      operation = inserts "notes" (obj (field "done" (bool false) end));
    }
    ∷ record { io = full_disk; env = env; operation = upserts "notes" (note "c") }
    ∷ record { io = late_failure; env = env; operation = transacts moving }
    ∷ record { io = ok_io; env = env; operation = removes "notes" (str "b") }
    ∷ record { io = ok_io; env = env; operation = checkpoints }
    ∷ []

calls-IsWhole : All (λ (c : Call). (c.io.line ≡ synced) ⊎ (c.io.line ≡ unwritten)) calls
calls-IsWhole = (inl refl, (inr refl, (inl refl, (inl refl, (inl refl, tt)))))

run-reopen_example :
    (now : Database) × (open_database digest 3 256 "other"
        (run structural digest calls (created 3 2 "db")).primary
        (run structural digest calls (created 3 2 "db")).backup
        (record (run structural digest calls (created 3 2 "db")).wal.file { torn = true })
      ≡ ok now)
    × Same structural now.state (run structural digest calls (created 3 2 "db")).state
    × ((id : String)
        → get id now.state.applied
          ≡ get id (run structural digest calls (created 3 2 "db")).state.applied)
run-reopen_example =
    run-reopen structural digest calls 3 2 256 "db" "other" true calls-IsWhole (omega arith)
      (omega arith) (omega arith) (omega arith)

abbrev fresh_db : Database
fresh_db = created 3 2 "db"

fresh_db-Durable : Durable structural digest fresh_db
fresh_db-Durable = created-Durable structural digest 3 2 "db"

open_database-Same_example :
    (now : Database) × (open_database digest 3 256 "other" fresh_db.primary missing
        (record fresh_db.wal.file { torn = true })
      ≡ ok now)
    × Same structural now.state fresh_db.state
    × ((id : String) → get id now.state.applied ≡ get id fresh_db.state.applied)
open_database-Same_example =
    open_database-Same structural digest fresh_db 256 "other" missing true fresh_db-Durable
      (omega arith) (omega arith) (omega arith) (omega arith)

transaction-Durable_example :
    Durable structural digest (transaction structural digest late_failure env moving fresh_db).1
transaction-Durable_example =
    transaction-Durable structural digest late_failure env moving fresh_db (inl refl)
      fresh_db-Durable

-- Every write succeeds on a new database, and removing nothing reports that.
writes_run :
    ((insert digest ok_io env "notes" (note "a") fresh_db).0 ≡ ok (note "a"))
    × ((upsert digest ok_io env "notes" (note "a") fresh_db).0 ≡ ok (note "a"))
    × ((remove digest ok_io env "notes" (str "a") fresh_db).0 ≡ ok false)
    × ((transaction structural digest ok_io env moving fresh_db).0 ≡ ok null)
unfolding insert perform decide_insert validate_collection_name valid_collection_name
    validate_record validate_id id_or get_field valid_id truthy read get collection_of commit_events
    event_write commit_draft delete put report after_append after_commit checkpoint_now compact
    notify notify_listener publish try_checkpoint wants write_json append_change forget
    is_applied_as make_event prune record_event store is_finite json_fields number_truthy set_field
    append assert_sequence check_append compact_through list_after make_entry nonempty upsert
    decide_upsert remove decide_remove erase transaction decide_transaction run_work
    diff_collections diff_names diff_ids diff_record write_of append_changes touch get_in put_in
    remove_in without unique place sort all_keys
writes_run = (refl, refl, refl, refl)

transaction-AlikeMaps_example :
    ((run_work moving fresh_db.state.collections).0 ≡ ok null)
    × AlikeMaps structural
        (transaction structural digest ok_io env moving fresh_db).1.state.collections
        (run_work moving fresh_db.state.collections).1
transaction-AlikeMaps_example =
    transaction-AlikeMaps structural digest ok_io env moving fresh_db null writes_run.3

insert-Updated_example :
    (id : String) × (property "id" (note "a") ≡ str id)
    × (truthy (read "notes" id fresh_db.state.collections) ≡ false)
    × Updated "notes" id
        (some (note "a"))
        fresh_db.state.collections
        (insert digest ok_io env "notes" (note "a") fresh_db).1.state.collections
insert-Updated_example =
    insert-Updated digest ok_io env "notes" fresh_db (note "a") (note "a") writes_run.0

transaction-failed_example :
    ((transaction structural digest full_disk env moving fresh_db).0 ≡ err io_failed
      → (transaction structural digest full_disk env moving fresh_db).1.state ≡ fresh_db.state)
    × ((insert digest full_disk env "notes" (note "a") fresh_db).0 ≡ err io_failed
        → (insert digest full_disk env "notes" (note "a") fresh_db).1.state ≡ fresh_db.state)
    × ((upsert digest full_disk env "notes" (note "a") fresh_db).0 ≡ err io_failed
        → (upsert digest full_disk env "notes" (note "a") fresh_db).1.state ≡ fresh_db.state)
    × ((remove digest full_disk env "notes" (str "a") fresh_db).0 ≡ err io_failed
        → (remove digest full_disk env "notes" (str "a") fresh_db).1.state ≡ fresh_db.state)
transaction-failed_example =
    transaction-failed structural digest full_disk env moving "notes" (note "a") (str "a") fresh_db
      io_failed

checkpoint_now-Durable_example :
    Durable structural digest
      (checkpoint_now late_failure (insert digest ok_io env "notes" (note "a") fresh_db).1).1
checkpoint_now-Durable_example =
    checkpoint_now-Durable structural digest late_failure
      (insert digest ok_io env "notes" (note "a") fresh_db).1
      (insert-Durable structural digest ok_io (inl refl) env "notes" (note "a") fresh_db
        fresh_db-Durable)

-- A file with a bad version and one record.
abbrev odd_file : RawState
odd_file = record {
  version = some 0;
  collections = some (("notes", ("a", note "a") ∷ []) ∷ []);
  database_id = none;
  sequence = some 4;
  changes = none;
  applied = none;
}

open_database-replace_state_example :
    ((replace_state ok_io odd_file "fresh" fresh_db).0 ≡ ok tt)
    × (now : Database) × (open_database digest 3 256 "other"
          (parsed_content sample_json (replace_state ok_io odd_file "fresh" fresh_db).1.primary)
          (parsed_content sample_json (replace_state ok_io odd_file "fresh" fresh_db).1.backup)
          (parsed_file sample_json (replace_state ok_io odd_file "fresh" fresh_db).1.wal.file)
        ≡ ok now)
    × (now.state ≡ (replace_state ok_io odd_file "fresh" fresh_db).1.state)
unfolding is_exact normalize_state
open_database-replace_state_example =
    open_database-replace_state sample_json sample_json-KeepsExact digest ok_io odd_file "fresh"
      "other" fresh_db 256 refl refl (((refl, tt), tt), tt) (omega arith) (omega arith)
      (omega arith) (omega arith)

moving_changes :
    diff_collections structural [] (run_work moving []).1
    ≡ ok (local_change "notes" "insert" "b" (note "b") ∷ [])
unfolding run_work diff_collections diff_names diff_ids diff_record touch get_in put_in remove_in
    without unique place sort all_keys get put delete collection_of read truthy get_field
    validate_record validate_id valid_id validate_collection_name valid_collection_name json_fields
    store erase
moving_changes = refl

diff_collections_lem_example :
    (m' : Map Collection) × (change_effects (local_change "notes" "insert" "b" (note "b") ∷ []) []
      ≡ ok m')
    × AlikeMaps structural m' (run_work moving []).1
diff_collections_lem_example =
    diff_collections_lem structural [] (run_work moving []).1
      (local_change "notes" "insert" "b" (note "b") ∷ []) (run_work-Tracks moving []) moving_changes
