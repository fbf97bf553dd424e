-- ===== src/Database/Replication/Divergence.antt =====
-- What a crash makes of a foreign change whose resolver does not answer with the incoming record: the
-- log has the incoming record, and memory the resolved one (src/index.js: applyReplicationChange,
-- applyEventToState).
use syncio.Base.{
  ℕ, ◌+◌, ◌≤◌, ◌<◌, ◌≡◌, ◌⊎◌, sym, ap, ◌∙◌, subst, String, false, inl, inr, some, Result, ok,
  ok-injective, max_safe_integer,
}
use syncio.Base.Maps.{Map, get}
use syncio.Json.{Value, str, validate_collection_name, property}
use syncio.Change.{Change, Event}
use syncio.Wal.{Payload, synced}
use syncio.Database.State.{Collection, State, Database, FileContent, collection_of}
use syncio.Database.Events.{Env}
use syncio.Database.Replay.{store, open_database}
use syncio.Database.Same.{Equality, Alike, at}
use syncio.Database.Appended.{made}
use syncio.Database.Commit.{Io}
use syncio.Database.Collection.{Write, perform}
use syncio.Database.Kept.{perform-done}
use syncio.Database.Recovery.{Durable, open_database-Same}
use syncio.Database.Recovery.Commit.{publish-fields}
use syncio.Database.Decided.{type_tests}
use syncio.Database.Replication.{
  Outcome, duplicate, applied, resolve, replicated, decide_replication, apply_replication_change,
}
use syncio.Database.Replication.Replayed.{IsResolved, resolve-IsResolved}
use syncio.Database.Replication.Decided.{IsDecided, change_write, decide_replication-eq-ok}
use syncio.Database.Replication.Written.{
  committed, shadow, written, written-Durable, committed-publish, at-shadow, at-committed,
}

-- In memory stands the stored record; the database that opening the files gives, which it does, has
-- under the incoming record's identity one that is equal to the incoming record.
abbrev pub IsDiverged :
    Equality
    → (Payload → String)
    → ℕ
    → ℕ
    → String
    → FileContent
    → Change
    → String × Value
    → Result Outcome × Database
    → Type 0
IsDiverged q digest retention every fresh backup c stored r =
    (now : Database) × (id : String) × (open_database digest retention every fresh r.1.primary
        backup r.1.wal.file
      ≡ ok now)
    × (get stored.0 (collection_of c.collection r.1.state.collections) ≡ some stored.1)
    × (property "id" c.body ≡ str id)
    × Alike q (get id (collection_of c.collection now.state.collections)) (some c.body)

module _ (resolver : Value → Value → Result Value) (legacy : Change → String) (q : Equality)
    (digest : Payload → String) (io : Io) (env : Env) (c : Change) (db : Database)
    (d : Durable q digest db) (line : io.line ≡ synced)
    (early : db.commits_since_checkpoint + 1 < db.checkpoint_every)
    (type : (c.type ≡ "insert") ⊎ (c.type ≡ "upsert"))
    (collection : validate_collection_name c.collection ≡ ok tt) where
  published-IsDiverged :
      (stored : String × Value) (id : String) (every : ℕ) (fresh : String) (backup : FileContent)
      (o : Outcome)
      → IsResolved c.body id
      → (perform digest io
          (ok (
            committed resolver legacy q digest io env c db d line early type collection
              (store c.collection stored.0 stored.1 db.state.collections)))
          db).0
        ≡ ok o
      → 1 ≤ db.change_retention
      → db.change_retention ≤ max_safe_integer
      → 1 ≤ every
      → every ≤ max_safe_integer
      → IsDiverged q digest db.change_retention every fresh backup c stored (
          perform digest io
            (ok (
              committed resolver legacy q digest io env c db d line early type collection
                (store c.collection stored.0 stored.1 db.state.collections)))
            db)
  unfolding property
  published-IsDiverged stored id every fresh backup o resolved h r₁ r₂ e₁ e₂ =
      let cs : Map Collection = store c.collection stored.0 stored.1 db.state.collections in
      let (checked, run) =
        committed-publish resolver legacy q digest io env c db d line early type collection cs o
          h in
      let fields =
        publish-fields q digest
          (committed resolver legacy q digest io env c db d line early type collection cs).events
          (written resolver legacy q digest io env c db d line early type collection cs) in
      let (now, opened, same, _) =
        open_database-Same q digest
          (record (written resolver legacy q digest io env c db d line early type collection cs) {
            state = shadow resolver legacy q digest io env c db d line early type collection id;
          })
          every fresh backup false
          (written-Durable resolver legacy q digest io env c db d line early type collection id cs
            resolved checked)
          r₁ r₂ e₁ e₂ in
      subst (IsDiverged q digest db.change_retention every fresh backup c stored) (sym run) (
        now,
        id,
        rw (fields.1, fields.2) opened,
        ap (λ (t : State). get stored.0 (collection_of c.collection t.collections)) fields.0
            ∙ at-committed resolver legacy q digest io env c db d line early type collection
                stored.0 stored.1,
        rw (resolved.incoming_fields) resolved.named,
        subst (Alike q (at q c.collection id now.state.collections))
            (at-shadow resolver legacy q digest io env c db d line early type collection id)
            (same.records c.collection id),
      )

-- The type of a change other than a removal, and what it stores.
replicated-resolve :
    (resolver : Value → Value → Result Value) (legacy : Change → String) (c : Change)
    (cs : Map Collection) (stored : String × Value)
    → (c.type ≡ "insert") ⊎ (c.type ≡ "upsert")
    → resolve resolver legacy (collection_of c.collection cs) c.body ≡ ok stored
    → replicated resolver legacy c cs ≡ ok (store c.collection stored.0 stored.1 cs)
unfolding replicated
replicated-resolve resolver legacy c cs stored type found = rw ((type_tests c.type type).0, found)

-- An insertion or an upsertion that was decided and is not a duplicate stores the resolved record.
decided-resolved :
    (resolver : Value → Value → Result Value) (legacy : Change → String) (retention : ℕ) (env : Env)
    (c : Change) (s : State) (w : Write Outcome) (e : Event) (stored : String × Value)
    → (c.type ≡ "insert") ⊎ (c.type ≡ "upsert")
    → resolve resolver legacy (collection_of c.collection s.collections) c.body ≡ ok stored
    → IsDecided resolver legacy retention env c s w
    → applied e ≡ w.result
    → w
      ≡ change_write resolver legacy retention env c s
          (store c.collection stored.0 stored.1 s.collections)
decided-resolved resolver legacy retention env c s w e stored type found (inl (seen, dup)) result =
    absurd (not_duplicate (result ∙ ap (λ (w : Write Outcome). w.result) dup))
  where
    not_duplicate : {e : Event} → ¬ (applied e ≡ duplicate)
    not_duplicate h = cc
decided-resolved resolver legacy retention env c s w e stored type found (inr (cs, made, new))
      result =
    new
    ∙ ap (change_write resolver legacy retention env c s) (
        ok-injective
          (sym made ∙ replicated-resolve resolver legacy c s.collections stored type found))

-- An insertion or an upsertion from another database that succeeds on a durable database, with its log
-- line synced and no checkpoint due, leaves under the identity that the resolver chose the record
-- that it gave. After a crash, opening the files succeeds, and under the identity of the incoming
-- record stands one that is equal to the incoming record, whatever the resolver gave.
pub apply_replication_change-diverges :
    (resolver : Value → Value → Result Value) (legacy : Change → String) (q : Equality)
    (digest : Payload → String) (io : Io) (env : Env) (c : Change) (db : Database) (e : Event)
    (stored : String × Value) (every : ℕ) (fresh : String) (backup : FileContent)
    → Durable q digest db
    → io.line ≡ synced
    → db.commits_since_checkpoint + 1 < db.checkpoint_every
    → (c.type ≡ "insert") ⊎ (c.type ≡ "upsert")
    → resolve resolver legacy (collection_of c.collection db.state.collections) c.body ≡ ok stored
    → (apply_replication_change resolver legacy digest io env c db).0 ≡ ok (applied e)
    → 1 ≤ db.change_retention
    → db.change_retention ≤ max_safe_integer
    → 1 ≤ every
    → every ≤ max_safe_integer
    → IsDiverged q digest db.change_retention every fresh backup c stored
        (apply_replication_change resolver legacy digest io env c db)
unfolding apply_replication_change
apply_replication_change-diverges resolver legacy q digest io env c db e stored every fresh backup d
      line early type found h r₁ r₂ e₁ e₂ =
    let decide = decide_replication resolver legacy db.change_retention env c db.state in
    let (w, decided, result, _) = perform-done digest io decide db (applied e) h in
    let (collection, split) =
      decide_replication-eq-ok resolver legacy db.change_retention env c db.state w decided in
    let cs : Map Collection = store c.collection stored.0 stored.1 db.state.collections in
    let new =
      decided-resolved resolver legacy db.change_retention env c db.state w e stored type found
        split result in
    let run : decide
        ≡ ok (committed resolver legacy q digest io env c db d line early type collection cs) =
      decided ∙ ap ok new in
    let (id, resolved) =
      resolve-IsResolved resolver legacy (collection_of c.collection db.state.collections) c.body
        stored found in
    subst
      (λ r.
        IsDiverged q digest db.change_retention every fresh backup c stored
          (perform digest io r db))
      (sym run)
      (published-IsDiverged resolver legacy q digest io env c db d line early type collection stored
        id every fresh backup (applied e) resolved
        (subst (λ r. (perform digest io r db).0 ≡ ok (applied e)) run h) r₁ r₂ e₁ e₂)
