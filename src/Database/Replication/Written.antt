-- ===== src/Database/Replication/Written.antt =====
-- What committing a foreign change leaves in memory and in the log (src/index.js:
-- applyReplicationChange, commitDraft).
use syncio.Base.{
  ◌+◌, ◌<◌, ◌≡◌, ◌⊎◌, refl, sym, ap, ◌∙◌, subst, String, true, false, inl, inr, Result-cases, some,
  List, [], ◌∷◌, ◌++◌, Error, Result, ok, err, leb, gt→leb,
}
use text.Mathlib.TextPositions.{eq_refl}
use syncio.Base.Maps.{Map, get}
use syncio.Json.{Value, validate_collection_name}
use syncio.Change.{Change, Event}
use syncio.Wal.{Payload, check_append, make_entry, write_line, synced}
use syncio.Database.State.{Collection, State, Database, collection_of}
use syncio.Database.Events.{Env}
use syncio.Database.Replay.{store}
use syncio.Database.Same.{Equality, at, get-store}
use syncio.Database.Appended.{made, next_lem}
use syncio.Database.Commit.{Io, commit_events, after_commit, publish}
use syncio.Database.Collection.{Write, perform, report}
use syncio.Database.Recovery.{IsDurable, Durable}
use syncio.Database.Recovery.Commit.{appended, logged, commit_draft-refused, commit_draft-synced}
use syncio.Database.Replication.{Outcome, received_change}
use syncio.Database.Replication.Replayed.{
  IsResolved, behind, sequence-same, replayed-Extends, replayed-IsOrdered,
}
use syncio.Database.Replication.Decided.{change_write}

module _ (q : Equality) (digest : Payload → String) (io : Io) where
  -- A write whose log line is refused, and one whose line is synced without a checkpoint behind it.
  perform-refused :
      {A : Type 0} (w : Write A) (e : Event) (db : Database) (error : Error)
      → w.events ≡ e ∷ []
      → check_append db.state.database_id db.state.sequence w.draft.sequence (e ∷ []) ≡ err error
      → perform digest io (ok w) db ≡ (err error, db)
  unfolding perform report commit_events after_commit
  perform-refused w e db error one refused =
      ap (λ es. report w.result (commit_events digest io w.draft es db)) one
      ∙ ap (λ r. report w.result (after_commit (e ∷ []) r))
          (commit_draft-refused q digest io w.draft (e ∷ []) db error refused)

  perform-synced :
      {A : Type 0} (w : Write A) (e : Event) (db : Database)
      → w.events ≡ e ∷ []
      → io.line ≡ synced
      → db.commits_since_checkpoint + 1 < db.checkpoint_every
      → check_append db.state.database_id db.state.sequence w.draft.sequence (e ∷ []) ≡ ok tt
      → perform digest io (ok w) db
        ≡ (ok w.result, publish (e ∷ []) (logged q digest io w.draft (e ∷ []) db))
  unfolding perform report commit_events after_commit
  perform-synced w e db one line early checked =
      let rest : leb db.checkpoint_every (db.commits_since_checkpoint + 1) ≡ false =
        gt→leb db.checkpoint_every (db.commits_since_checkpoint + 1) early in
      ap (λ es. report w.result (commit_events digest io w.draft es db)) one
      ∙ ap (λ r. report w.result (after_commit (e ∷ []) r))
          (commit_draft-synced q digest io w.draft (e ∷ []) db line checked)
      ∙ rw rest

module _ (resolver : Value → Value → Result Value) (legacy : Change → String) (q : Equality)
    (digest : Payload → String) (io : Io) (env : Env) (c : Change) (db : Database)
    (d : Durable q digest db) (line : io.line ≡ synced)
    (early : db.commits_since_checkpoint + 1 < db.checkpoint_every)
    (type : (c.type ≡ "insert") ⊎ (c.type ≡ "upsert"))
    (collection : validate_collection_name c.collection ≡ ok tt) where
  abbrev pub committed : Map Collection → Write Outcome
  committed cs = change_write resolver legacy db.change_retention env c db.state cs

  -- The state that recovery makes of the committed change.
  abbrev pub shadow : String → State
  shadow id =
      behind resolver legacy q db.change_retention env c db.state d.ordered type collection
        (store c.collection id c.body db.state.collections)

  abbrev pub written : Map Collection → Database
  written cs = logged q digest io (committed cs).draft (committed cs).events db

  pub written-Durable :
      (id : String) (cs : Map Collection)
      → IsResolved c.body id
      → check_append db.state.database_id db.state.sequence
          (committed cs).draft.sequence
          (committed cs).events
        ≡ ok tt
      → Durable q digest (record (written cs) { state = shadow id })
  written-Durable id cs resolved checked =
      let ds : Map Collection = store c.collection id c.body db.state.collections in
      let es : List Event = (committed cs).events in
      let same : (shadow id).sequence ≡ (committed cs).draft.sequence =
        sequence-same resolver legacy q db.change_retention env c db.state d.ordered type collection
          ds cs in
      subst
        (λ n.
          IsDurable q digest db.change_retention (shadow id)
            (record {
              file =
                  write_line db.wal.file
                    (make_entry digest db.state.database_id db.state.sequence n es);
              entries =
                  db.wal.entries
                  ++ make_entry digest db.state.database_id db.state.sequence n es ∷ [];
            })
            db.primary)
        same
        (appended q digest db.change_retention db.state (shadow id) db.wal db.primary es d
          (replayed-Extends resolver legacy q db.change_retention env c db.state d.ordered type
            collection id cs resolved)
          (replayed-IsOrdered resolver legacy q db.change_retention env c db.state d.ordered type
            collection id)
          (subst (λ n. check_append db.state.database_id db.state.sequence n es ≡ ok tt) (sym same)
            checked))

  -- What a new change leaves in memory, once it has succeeded.
  pub committed-publish :
      (cs : Map Collection) (o : Outcome)
      → (perform digest io (ok (committed cs)) db).0 ≡ ok o
      → (check_append db.state.database_id db.state.sequence
            (committed cs).draft.sequence
            (committed cs).events
          ≡ ok tt)
        × (perform digest io (ok (committed cs)) db
            ≡ (ok (committed cs).result, publish (committed cs).events (written cs)))
  committed-publish cs o h =
      let w : Write Outcome = committed cs in
      let e : Event =
        made db.change_retention env true (record db.state { collections = cs })
          (received_change resolver legacy env c) in
      elim (Result-cases
        (check_append db.state.database_id db.state.sequence w.draft.sequence (e ∷ []))) [
          | inl (_, checked) ↦ (checked, perform-synced q digest io w e db refl line early checked)
          | inr (error, refused) ↦ absurd (
              err-ok
                (sym (ap (λ r. r.0) (perform-refused q digest io w e db error refl refused)) ∙ h))
        ]
    where
      err-ok : {error : Error} {o : Outcome} → ¬ (err error ≡ ok o)
      err-ok h = cc

  pub at-shadow : (id : String) → at q c.collection id (shadow id).collections ≡ some c.body
  at-shadow id =
      let ds : Map Collection = store c.collection id c.body db.state.collections in
      let one =
        next_lem db.change_retention env true (record db.state { collections = ds })
          (received_change resolver legacy env c) in
      ap (λ m. get id (collection_of c.collection m)) one.collections
      ∙ get-store c.collection id c.body db.state.collections c.collection id
      ∙ rw (eq_refl c.collection, eq_refl id)

  pub at-committed :
      (rid : String) (r : Value)
      → at q c.collection rid
          (committed (store c.collection rid r db.state.collections)).draft.collections
        ≡ some r
  at-committed rid r =
      let ds : Map Collection = store c.collection rid r db.state.collections in
      let one =
        next_lem db.change_retention env true (record db.state { collections = ds })
          (received_change resolver legacy env c) in
      ap (λ m. get rid (collection_of c.collection m)) one.collections
      ∙ get-store c.collection rid r db.state.collections c.collection rid
      ∙ rw (eq_refl c.collection, eq_refl rid)
