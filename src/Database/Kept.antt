-- ===== src/Database/Kept.antt =====
-- What the operations leave as it is (src/index.js: commitDraft, checkpointNow, publish and the writes).
use syncio.Base.{
  ◌≡◌, refl, sym, ◌∙◌, ◌+◌, Bool-cases, Result-cases, inl, inr, String, List, [], ◌∷◌, Error,
  Result, ok, err, ok-injective, eqb, ltb, leb, map,
}
use syncio.Change.{Event}
use syncio.Wal.{Payload, Entry, WriteAheadLog, compact_through, append}
use syncio.Database.State.{State, Database}
use syncio.Database.Commit.{
  Io, CheckpointOutcome, both_replaced, neither_replaced, file_replaced, both_unconfirmed,
  write_json, compact, checkpoint_now, try_checkpoint, after_append, after_commit, commit_draft,
  commit_events, publish, notify, notify_listener, close,
}
use syncio.Database.Collection.{Write, perform, report}

err-ok : {A : Type 0} {e : Error} {a : A} → ¬ (err e ≡ ok a)
err-ok h = cc

-- What checkpoints and the publishing of events leave as it is.
pub record Keeps (db db' : Database) : Type 0 where
  pub state : db'.state ≡ db.state
  pub change_retention : db'.change_retention ≡ db.change_retention

Keeps-refl : (db : Database) → Keeps db db
Keeps-refl db = record { state = refl; change_retention = refl }

Keeps-trans : {a b c : Database} → Keeps a b → Keeps b c → Keeps a c
Keeps-trans h k = record {
  state = k.state ∙ h.state;
  change_retention = k.change_retention ∙ h.change_retention;
}

write_json-Keeps :
    (outcome : CheckpointOutcome) (s : State) (db : Database) → Keeps db (write_json outcome s db).1
unfolding write_json
write_json-Keeps both_replaced s db = record { state = refl; change_retention = refl }
write_json-Keeps neither_replaced s db = record { state = refl; change_retention = refl }
write_json-Keeps file_replaced s db = record { state = refl; change_retention = refl }
write_json-Keeps both_unconfirmed s db = record { state = refl; change_retention = refl }

compact-Keeps : (io : Io) (db : Database) → Keeps db (compact io db).1
unfolding compact
compact-Keeps io db = elim (Result-cases (compact_through io.log db.state.sequence db.wal).0) [
  | inl (_, e) ↦ rw (e, compact) (record { state = refl; change_retention = refl })
  | inr (_, e) ↦ rw (e, compact) (record { state = refl; change_retention = refl })
]

pub checkpoint_now-Keeps : (io : Io) (db : Database) → Keeps db (checkpoint_now io db).1
unfolding checkpoint_now
checkpoint_now-Keeps io db = elim (Bool-cases (eqb db.commits_since_checkpoint 0)) [
  | inl idle ↦ rw (idle, checkpoint_now) (Keeps-refl db)
  | inr busy ↦ elim (Result-cases (write_json io.checkpoint db.state db).0) [
    | inr (_, e) ↦ rw (busy, checkpoint_now, e) (write_json-Keeps io.checkpoint db.state db)
    | inl (_, e) ↦
        rw (busy, checkpoint_now, e)
          (Keeps-trans (write_json-Keeps io.checkpoint db.state db)
            (compact-Keeps io (write_json io.checkpoint db.state db).1))
  ]
]

try_checkpoint-Keeps : (io : Io) (db : Database) → Keeps db (try_checkpoint io db)
unfolding try_checkpoint
try_checkpoint-Keeps io db = elim (Result-cases (checkpoint_now io db).0) [
  | inl (_, e) ↦ rw (e, try_checkpoint) (checkpoint_now-Keeps io db)
  | inr (_, e) ↦
      let k = checkpoint_now-Keeps io db in
      rw (e, try_checkpoint) (record { state = k.state; change_retention = k.change_retention })
]

publish-Keeps : (es : List Event) (db : Database) → Keeps db (publish es db)
unfolding publish
publish-Keeps [] db = Keeps-refl db
publish-Keeps (e ∷ es) db =
    let k = publish-Keeps es (record db {
      listeners = map (notify_listener e) db.listeners;
      change_listeners = map (notify e) db.change_listeners;
    }) in
    record { state = k.state; change_retention = k.change_retention }

-- What an operation that commits leaves: the draft if it succeeds, and the old state if it fails.
pub record Commits {A : Type 0} (draft : State) (db : Database) (r : Result A × Database)
    : Type 0 where
  pub change_retention : r.1.change_retention ≡ db.change_retention
  pub done : (a : A) → r.0 ≡ ok a → r.1.state ≡ draft
  pub failed : (e : Error) → r.0 ≡ err e → r.1.state ≡ db.state

after_append-Commits :
    (io : Io) (draft : State) (db : Database) (r : Result Entry × WriteAheadLog)
    → Commits draft db (after_append io draft db r)
unfolding after_append
after_append-Commits io draft db (err e, wal) = record {
  change_retention = refl;
  done = λ a h. absurd (err-ok h);
  failed = λ e' h. refl;
}
after_append-Commits io draft db (ok entry, wal) =
    elim (Bool-cases (leb db.checkpoint_every (db.commits_since_checkpoint + 1))) [
      | inl due ↦
          let k = try_checkpoint-Keeps io (record db {
            state = draft;
            wal = wal;
            commits_since_checkpoint = db.commits_since_checkpoint + 1;
          }) in
          rw due (record {
            change_retention = k.change_retention;
            done = λ a h. k.state;
            failed = λ e h. absurd (err-ok (sym h));
          })
      | inr early ↦ rw early (record {
        change_retention = refl;
        done = λ a h. refl;
        failed = λ e h. absurd (err-ok (sym h));
      })
    ]

after_commit-Commits :
    (draft : State) (es : List Event) (db : Database) (r : Result (Unit {0}) × Database)
    → Commits draft db r
    → Commits draft db (after_commit es r)
unfolding after_commit
after_commit-Commits draft es db (err e, db') h = h
after_commit-Commits draft es db (ok _, db') h =
    let k = publish-Keeps es db' in
    record {
      change_retention = k.change_retention ∙ h.change_retention;
      done = λ a eq. k.state ∙ h.done tt refl;
      failed = λ e eq. absurd (err-ok (sym eq));
    }

report-Commits :
    {A : Type 0} (draft : State) (result : A) (db : Database) (r : Result (Unit {0}) × Database)
    → Commits draft db r
    → Commits draft db (report result r)
unfolding report
report-Commits draft result db (err e, db') h = record {
  change_retention = h.change_retention;
  done = λ a eq. absurd (err-ok eq);
  failed = λ e' eq. h.failed e refl;
}
report-Commits draft result db (ok _, db') h = record {
  change_retention = h.change_retention;
  done = λ a eq. h.done tt refl;
  failed = λ e eq. absurd (err-ok (sym eq));
}

module _ (digest : Payload → String) (io : Io) where
  -- Nothing is committed without an event.
  abbrev pub kept_by : {A : Type 0} → Write A → Database → State
  kept_by w db = elim w.events [ [] ↦ db.state | e ∷ es ↦ w.draft ]

  commit_events-Commits :
      (draft : State) (es : List Event) (db : Database)
      → Commits
          (kept_by (record { draft = draft; events = es; result = tt }) db)
          db
          (commit_events digest io draft es db)
  unfolding commit_events commit_draft
  commit_events-Commits draft [] db = record {
    change_retention = refl;
    done = λ a h. refl;
    failed = λ e h. refl;
  }
  commit_events-Commits draft (e ∷ es) db =
      after_commit-Commits draft (e ∷ es) db (commit_draft digest io draft (e ∷ es) db) (
        after_append-Commits io draft db (
          append digest io.line db.state.database_id db.state.sequence draft.sequence (e ∷ es)
            db.wal))

  perform_write-Commits :
      {A : Type 0} (w : Write A) (db : Database)
      → Commits (kept_by w db) db (perform digest io (ok w) db)
  unfolding perform
  perform_write-Commits w db =
      report-Commits (kept_by w db) w.result db (commit_events digest io w.draft w.events db)
        (commit_events-Commits w.draft w.events db)

  pub perform-retention :
      {A : Type 0} (r : Result (Write A)) (db : Database)
      → (perform digest io r db).1.change_retention ≡ db.change_retention
  unfolding perform
  perform-retention (err e) db = refl
  perform-retention (ok w) db = (perform_write-Commits w db).change_retention

  -- A write that fails leaves the state in memory as it was.
  pub perform-failed :
      {A : Type 0} (r : Result (Write A)) (db : Database) (e : Error)
      → (perform digest io r db).0 ≡ err e
      → (perform digest io r db).1.state ≡ db.state
  unfolding perform
  perform-failed (err e') db e h = refl
  perform-failed (ok w) db e h = (perform_write-Commits w db).failed e h

  report-result :
      {A : Type 0} (result a : A) (r : Result (Unit {0}) × Database)
      → (report result r).0 ≡ ok a
      → a ≡ result
  unfolding report
  report-result result a (err e, db) h = absurd (err-ok h)
  report-result result a (ok _, db) h = sym (ok-injective h)

  -- A write that succeeds was decided, and it leaves the decided draft if there is an event.
  pub perform-done :
      {A : Type 0} (r : Result (Write A)) (db : Database) (a : A)
      → (perform digest io r db).0 ≡ ok a
      → (w : Write A) × (r ≡ ok w)
        × (a ≡ w.result)
        × ((perform digest io r db).1.state ≡ kept_by w db)
  unfolding perform
  perform-done (err e) db a h = absurd (err-ok h)
  perform-done (ok w) db a h = (
    w,
    refl,
    report-result w.result a (commit_events digest io w.draft w.events db) h,
    (perform_write-Commits w db).done a h,
  )

pub checkpoint_now-retention :
    (io : Io) (db : Database) → (checkpoint_now io db).1.change_retention ≡ db.change_retention
checkpoint_now-retention io db = (checkpoint_now-Keeps io db).change_retention

pub close-retention :
    (io : Io) (db : Database) → (close io db).1.change_retention ≡ db.change_retention
unfolding close
close-retention io db = elim (Bool-cases (ltb 0 db.commits_since_checkpoint)) [
  | inl busy ↦ rw (busy, close) (checkpoint_now-retention io db)
  | inr idle ↦ rw (idle, close)
]
