-- ===== src/Database/Replication/Examples.antt =====
-- Foreign changes on concrete databases, and witnesses (src/index.js: applyReplicationChange).
use syncio.Base.{◌≡◌, refl, String, inr, none, some, ok, arith}
use syncio.Json.{
  Value, str, truthy, get_field, validate_record, validate_collection_name, valid_collection_name,
  validate_id, valid_id, json_fields, is_finite, number_truthy,
}
use syncio.Base.Maps.{get, put, delete}
use syncio.Change.{Change, Event}
use syncio.Wal.{
  append, assert_sequence, check_append, make_entry, nonempty, compact_through, list_after,
}
use syncio.Database.State.{Database, missing, collection_of}
use syncio.Database.Events.{append_change, make_event, prune, record_event, forget, is_applied_as}
use syncio.Database.Replay.{store, erase}
use syncio.Database.Commit.{
  commit_events, commit_draft, after_append, after_commit, publish, notify, notify_listener, wants,
  try_checkpoint, checkpoint_now, write_json, compact,
}
use syncio.Database.Collection.{perform, report}
use syncio.Database.Run.{created, created-Durable}
use syncio.Database.Samples.{structural, digest, env, note, ok_io, full_disk}
use syncio.Database.Replication.{
  duplicate, applied, is_applied, change_id_of, resolve, replicated, decide_replication,
  apply_replication_change,
}
use syncio.Database.Replication.Duplicates.{apply_replication_change-twice}
use syncio.Database.Replication.Divergence.{IsDiverged, apply_replication_change-diverges}
use syncio.Base.{Result}

-- A resolver that answers with a record of its own.
abbrev always_b : Value → Value → Result Value
always_b current incoming = ok (note "b")

abbrev no_legacy : Change → String
no_legacy c = "legacy"

abbrev foreign : Change
foreign = record {
  collection = "notes";
  type = "upsert";
  id = str "a";
  body = note "a";
  change_id = some "foreign";
  origin = some "other";
  source_sequence = none;
  sequence = some 7;
  at = some "2026-01-01T00:00:00.000Z";
  source = none;
  received_at = none;
}

abbrev db : Database
db = created 3 256 "db"

abbrev foreign_event : Event
foreign_event = record {
  collection = "notes";
  type = "upsert";
  id = str "a";
  body = note "a";
  change_id = "foreign";
  origin = "other";
  source_sequence = some 7;
  sequence = 1;
  at = "2026-01-01T00:00:00.000Z";
  source = some "replication";
  received_at = some "2026-01-01T00:00:00.000Z";
}

foreign_applied :
    (apply_replication_change always_b no_legacy digest ok_io env foreign db).0
    ≡ ok (applied foreign_event)
unfolding apply_replication_change decide_replication is_applied change_id_of resolve replicated
    validate_record validate_collection_name valid_collection_name validate_id valid_id truthy
    get_field json_fields is_finite number_truthy get put delete append assert_sequence check_append
    make_entry nonempty collection_of append_change make_event prune record_event forget
    is_applied_as store erase commit_events commit_draft after_append after_commit publish notify
    notify_listener wants try_checkpoint checkpoint_now write_json compact compact_through
    list_after perform report
foreign_applied = refl

foreign_resolved :
    resolve always_b no_legacy (collection_of "notes" db.state.collections) (note "a")
    ≡ ok ("b", note "b")
unfolding resolve validate_record validate_id valid_id truthy get_field json_fields get
    collection_of
foreign_resolved = refl

apply_replication_change-diverges_example :
    IsDiverged structural digest 3 256 "fresh" missing foreign
      ("b", note "b")
      (apply_replication_change always_b no_legacy digest ok_io env foreign db)
apply_replication_change-diverges_example =
    apply_replication_change-diverges always_b no_legacy structural digest ok_io env foreign db
      foreign_event ("b", note "b") 256 "fresh" missing
      (created-Durable structural digest 3 256 "db") refl (omega arith) (inr refl) foreign_resolved
      foreign_applied (omega arith) (omega arith) (omega arith) (omega arith)

apply_replication_change-twice_example :
    apply_replication_change always_b no_legacy digest full_disk env foreign
      (apply_replication_change always_b no_legacy digest ok_io env foreign db).1
    ≡ (ok duplicate, (apply_replication_change always_b no_legacy digest ok_io env foreign db).1)
apply_replication_change-twice_example =
    apply_replication_change-twice always_b no_legacy digest ok_io full_disk env env foreign db
      (applied foreign_event) (created-Durable structural digest 3 256 "db").ordered (omega arith)
      foreign_applied
