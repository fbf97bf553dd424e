-- ===== src/Control/Examples.antt =====
-- Runs of the control plane on concrete inputs, and witnesses (src/control-plane.js).
use syncio.Database.Replay.{store, erase}
use syncio.Database.Events.{
  append_change, forget, is_applied_as, make_event, prune, record_event, append_changes,
}
use syncio.Database.Commit.{
  commit_events, commit_draft, after_append, after_commit, checkpoint_now, compact, notify,
  notify_listener, publish, try_checkpoint, wants, write_json,
}
use syncio.Base.Maps.{get, put, delete}
use syncio.Database.Transaction.{
  decide_transaction, run_work, get_in, touch, all_in, put_in, transaction, diff_collections,
  diff_names, diff_ids, diff_record, write_of, remove_in, without, unique, place, sort, all_keys,
}
use syncio.Database.Collection.{perform, read, id_or, event_write, report}
use syncio.Base.{
  ◌≡◌, refl, String, true, false, [], ◌∷◌, ok, err, type_error, project_not_found,
  account_not_found,
}
use syncio.Json.{
  Value, undefined, null, str, arr, obj, nil, cons, Fields, end, field, codes,
  validate_collection_name, valid_collection_name, validate_id, valid_id, validate_record,
  get_field, truthy, is_finite, json_fields, number_truthy, set_field,
}
use syncio.Wal.{
  append, assert_sequence, check_append, compact_through, list_after, make_entry, nonempty,
}
use syncio.Database.State.{Database, collection_of}
use syncio.Database.Samples.{structural, digest, env, ok_io, equal}
use syncio.Database.Run.{created}
use syncio.Control.Plans.{pro, plan_entitlements, key_text, plan_named}
use syncio.Control.Texts.{is_email, trim}
use syncio.Control.Records.{Host, Call}
use syncio.Control.Entitled.{AreGrants}
use syncio.Control.Accounts.{create_account, account_of}
use syncio.Control.Accounts.Unique.{IsRefused, create_account-twice}
use syncio.Control.Projects.{create_project, change_plan}
use syncio.Control.Billing.{process, event_of, check_event}
use syncio.Control.Billing.Again.{IsIgnored, process-IsIgnored}
use syncio.Control.Billing.Grants.{applied, process-AreGrants}

abbrev host : Host
host = record {
  equality = structural;
  digest = digest;
  lower_case = λ s. s;
  hash_email = λ s. s;
  convert = λ v. err type_error;
}

abbrev call : String → Call
call uuid = record { io = ok_io; env = env; uuid = uuid; now = "2026-01-01T00:00:00.000Z" }

emails :
    (is_email (codes "a@b.c") ≡ true)
    × (is_email (codes "@b.c") ≡ false)
    × (is_email (codes "a@.c") ≡ false)
    × (is_email (codes "a@b.") ≡ false)
    × (is_email (codes "a b@c.d") ≡ false)
    × (trim "  a b " ≡ "a b")
unfolding is_email trim
emails = (refl, refl, refl, refl, refl, refl)

plans :
    (plan_entitlements (str "enterprise") ≡ ok (arr (cons (str "*") nil)))
    × (plan_entitlements (str "gold") ≡ err type_error)
unfolding plan_entitlements key_text plan_named
plans = (refl, refl)

-- A database with an account and a project.
abbrev account : Value
account = obj (field "id" (str "a") (field "status" (str "active") end))

abbrev site_fields : String → Fields
site_fields plan =
    field "id" (str "p")
      (field "accountId" (str "a") (field "plan" (str plan) (field "status" (str "active") end)))

abbrev database : Database
database = record (created 256 10 "db") {
  state = record (created 256 10 "db").state {
    collections =
        ("_accounts", ("a", account) ∷ [])
        ∷ ("_projects", ("p", obj (site_fields "free")) ∷ [])
        ∷ [];
  };
}

abbrev upgrade : String → Fields
upgrade status = field "id" (str "e") (
    field "projectId" (str "p") (
      field "type" (str "subscription.updated")
        (field "plan" (str "pro") (field "status" (str status) end))))

checks :
    ((process host (call "u") (obj (field "id" (str "e") end)) database).0 ≡ err type_error)
    × ((process host (call "u") (obj (upgrade "active")) (created 256 10 "db")).0
        ≡ err project_not_found)
    × ((create_account host (call "u") (str "no address") undefined database).0 ≡ err type_error)
    × ((create_project host (call "u") (str "x") (str "site") undefined database).0
        ≡ err account_not_found)
    × ((change_plan host (call "u") (str "p") (str "gold") undefined undefined database).0
        ≡ err type_error)
unfolding process create_account create_project change_plan key_text plan_named perform
    decide_transaction run_work get_in validate_collection_name valid_collection_name validate_id
    valid_id read get collection_of touch put all_in
checks = (refl, refl, refl, refl, refl)

applies :
    (process host (call "u") (obj (upgrade "active")) database).0 ≡ ok (applied host (str "pro"))
unfolding perform validate_collection_name valid_collection_name validate_record validate_id id_or
    get_field valid_id truthy read get collection_of commit_events event_write commit_draft delete
    put report after_append after_commit checkpoint_now compact notify notify_listener publish
    try_checkpoint wants write_json append_change forget is_applied_as make_event prune record_event
    store is_finite json_fields number_truthy set_field append assert_sequence check_append
    compact_through list_after make_entry nonempty erase transaction decide_transaction run_work
    diff_collections diff_names diff_ids diff_record write_of append_changes touch get_in put_in
    remove_in without unique place sort all_keys process create_account key_text plan_named equal
    all_in is_email trim account_of
applies = refl

abbrev new_account : Value
new_account = obj (
    field "id" (str "u") (
      field "email" (str "a@b.c") (
        field "name" null (
          field "status" (str "active") (field "createdAt" (str "2026-01-01T00:00:00.000Z") end)))))

registers : (create_account host (call "u") (str "a@b.c") null database).0 ≡ ok new_account
unfolding perform validate_collection_name valid_collection_name validate_record validate_id id_or
    get_field valid_id truthy read get collection_of commit_events event_write commit_draft delete
    put report after_append after_commit checkpoint_now compact notify notify_listener publish
    try_checkpoint wants write_json append_change forget is_applied_as make_event prune record_event
    store is_finite json_fields number_truthy set_field append assert_sequence check_append
    compact_through list_after make_entry nonempty erase transaction decide_transaction run_work
    diff_collections diff_names diff_ids diff_record write_of append_changes touch get_in put_in
    remove_in without unique place sort all_keys process create_account key_text plan_named equal
    all_in is_email trim account_of
registers = refl

process-IsIgnored_example :
    IsIgnored host (process host (call "u") (obj (upgrade "active")) database).1 (
      process host
        (call "w")
        (obj (upgrade "active"))
        (process host (call "u") (obj (upgrade "active")) database).1)
process-IsIgnored_example =
    process-IsIgnored host (call "u") (call "w") (upgrade "active") database
      (applied host (str "pro")) applies

process-AreGrants_example :
    AreGrants host (str "p") pro (process host (call "u") (obj (upgrade "active")) database).1
unfolding event_of check_event key_text plan_named get_field
process-AreGrants_example =
    process-AreGrants host (call "u") (upgrade "active") (str "pro") pro database refl applies

create_account-twice_example :
    IsRefused host (create_account host (call "u") (str "a@b.c") null database).1 (
      create_account host
        (call "w")
        (str "a@b.c")
        (str "other")
        (create_account host (call "u") (str "a@b.c") null database).1)
create_account-twice_example =
    create_account-twice host (call "u") (call "w") "a@b.c" "a@b.c" null (str "other") database
      new_account registers refl
