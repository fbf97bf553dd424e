-- ===== src/Database/Run.antt =====
-- Histories of operations (src/index.js): a sequence of calls, each with what the file system did.
use syncio.Base.{
  ℕ, ◌≤◌, ◌≡◌, subst, ◌⊎◌, refl, String, Bool, false, Bool-cases, ltb, inl, inr, List, [], ◌∷◌, ◌∙◌,
  ok, max_safe_integer, arith, All,
}
use syncio.Base.Maps.{get}
use syncio.Json.{Value}
use syncio.Wal.{Payload, synced, unwritten, file_of, list_after}
use syncio.Database.State.{State, holds, to_raw, Database}
use syncio.Database.Events.{Env}
use syncio.Database.Replay.{open_database, replay_wal}
use syncio.Database.Same.{Equality, Same, Same-refl}
use syncio.Database.Commit.{Io, checkpoint_now, close}
use syncio.Database.Collection.{insert, upsert, remove, watch}
use syncio.Database.Transaction.{Work, transaction}
use syncio.Database.Recovery.{Durable, open_database-Same}
use syncio.Database.Recovery.Checkpoint.{checkpoint_now-Durable}
use syncio.Database.Kept.{perform-retention, checkpoint_now-retention, close-retention}
use syncio.Database.Durability.{insert-Durable, upsert-Durable, remove-Durable, transaction-Durable}

pub data Operation : Type 0 where
  inserts upserts : String → Value → Operation
  removes : String → Value → Operation
  transacts : Work → Operation
  checkpoints closes : Operation
  watches : String → Operation

pub record Call : Type 0 where
  pub io : Io
  pub env : Env
  pub operation : Operation

-- The call writes no part of a log line, and no line whose sync fails.
abbrev pub IsWhole : Call → Type 0
IsWhole c = (c.io.line ≡ synced) ⊎ (c.io.line ≡ unwritten)

module _ (q : Equality) (digest : Payload → String) where
  unfoldable pub step : Io → Env → Operation → Database → Database
  step io env (inserts name value) db = (insert digest io env name value db).1
  step io env (upserts name value) db = (upsert digest io env name value db).1
  step io env (removes name id) db = (remove digest io env name id db).1
  step io env (transacts work) db = (transaction q digest io env work db).1
  step io env checkpoints db = (checkpoint_now io db).1
  step io env closes db = (close io db).1
  step io env (watches name) db = watch name db

  unfoldable pub run : List Call → Database → Database
  unfolding step
  run [] db = db
  run (c ∷ cs) db = run cs (step c.io c.env c.operation db)

  close-Durable : (io : Io) (db : Database) → Durable q digest db → Durable q digest (close io db).1
  unfolding close
  close-Durable io db d = elim (Bool-cases (ltb 0 db.commits_since_checkpoint)) [
    | inl busy ↦ rw (busy, close) (checkpoint_now-Durable q digest io db d)
    | inr idle ↦ rw (idle, close) d
  ]

  step-Durable :
      (io : Io) (env : Env) (op : Operation) (db : Database)
      → (io.line ≡ synced) ⊎ (io.line ≡ unwritten)
      → Durable q digest db
      → Durable q digest (step io env op db)
  unfolding step watch
  step-Durable io env (inserts name value) db line d =
      insert-Durable q digest io line env name value db d
  step-Durable io env (upserts name value) db line d =
      upsert-Durable q digest io line env name value db d
  step-Durable io env (removes name id) db line d = remove-Durable q digest io line env name id db d
  step-Durable io env (transacts work) db line d =
      transaction-Durable q digest io env work db line d
  step-Durable io env checkpoints db line d = checkpoint_now-Durable q digest io db d
  step-Durable io env closes db line d = close-Durable io db d
  step-Durable io env (watches name) db line d = d

  -- A durable database stays durable through every history of calls in which each log line is synced
  -- or not written at all, whatever the checkpoints and compactions do.
  pub run-Durable :
      (calls : List Call) (db : Database)
      → All IsWhole calls
      → Durable q digest db
      → Durable q digest (run calls db)
  unfolding run
  run-Durable [] db whole d = d
  run-Durable (c ∷ cs) db whole d =
      run-Durable cs (step c.io c.env c.operation db) whole.1
        (step-Durable c.io c.env c.operation db whole.0 d)

-- The database that opening makes where there are no files.
abbrev pub empty_state : String → State
empty_state fresh = record {
  version = 1;
  collections = [];
  database_id = fresh;
  sequence = 0;
  changes = [];
  applied = [];
}

abbrev pub created : ℕ → ℕ → String → Database
created retention every fresh = record {
  state = empty_state fresh;
  change_retention = retention;
  checkpoint_every = every;
  wal = record { file = file_of []; entries = [] };
  primary = holds (to_raw (empty_state fresh));
  backup = holds (to_raw (empty_state fresh));
  commits_since_checkpoint = 0;
  degraded = false;
  listeners = [];
  change_listeners = [];
}

module _ (q : Equality) (digest : Payload → String) where
  step-retention :
      (io : Io) (env : Env) (op : Operation) (db : Database)
      → (step q digest io env op db).change_retention ≡ db.change_retention
  unfolding step watch insert upsert remove transaction
  step-retention io env (inserts name value) db = perform-retention digest io _ db
  step-retention io env (upserts name value) db = perform-retention digest io _ db
  step-retention io env (removes name id) db = perform-retention digest io _ db
  step-retention io env (transacts work) db = perform-retention digest io _ db
  step-retention io env checkpoints db = checkpoint_now-retention io db
  step-retention io env closes db = close-retention io db
  step-retention io env (watches name) db = refl

  run-retention :
      (calls : List Call) (db : Database)
      → (run q digest calls db).change_retention ≡ db.change_retention
  unfolding run
  run-retention [] db = refl
  run-retention (c ∷ cs) db =
      run-retention cs (step q digest c.io c.env c.operation db)
      ∙ step-retention c.io c.env c.operation db

  pub created-Durable :
      (retention every : ℕ) (fresh : String) → Durable q digest (created retention every fresh)
  unfolding replay_wal list_after get
  created-Durable retention every fresh = record {
    storable = record {
      version_pos = omega arith;
      version_safe = omega arith;
      sequence_safe = omega arith;
    };
    ordered = record { base = 0; numbered = tt; ends = refl; applied = λ id. refl };
    checkpoint = empty_state fresh;
    held = refl;
    checkpoint_storable = record {
      version_pos = omega arith;
      version_safe = omega arith;
      sequence_safe = omega arith;
    };
    behind = omega arith;
    base = 0;
    stored = [];
    file = refl;
    chained = tt;
    sound = tt;
    ends = refl;
    recovered = empty_state fresh;
    replayed = refl;
    same = Same-refl q (empty_state fresh);
    recovered_ordered = record { base = 0; numbered = tt; ends = refl; applied = λ id. refl };
    memory_base = 0;
    memory_chained = tt;
    memory_ends = refl;
  }

  -- A database that was created and then ran any history of calls, each of whose log lines was synced
  -- or not written at all, whatever its checkpoints and compactions did, can be opened again from its
  -- files, with a torn tail behind the log or without one, if the options are in their range. The
  -- state that is read has the version, identity, sequence and history of the state in memory, records
  -- equal to it under the same names and identities, and the same applied changes.
  pub run-reopen :
      (calls : List Call) (retention every every' : ℕ) (fresh fresh' : String) (torn : Bool)
      → All IsWhole calls
      → 1 ≤ retention
      → retention ≤ max_safe_integer
      → 1 ≤ every'
      → every' ≤ max_safe_integer
      → (now : Database) × (open_database digest retention every' fresh'
            (run q digest calls (created retention every fresh)).primary
            (run q digest calls (created retention every fresh)).backup
            (record (run q digest calls (created retention every fresh)).wal.file { torn = torn })
          ≡ ok now)
        × Same q now.state (run q digest calls (created retention every fresh)).state
        × ((id : String)
            → get id now.state.applied
              ≡ get id (run q digest calls (created retention every fresh)).state.applied)
  run-reopen calls retention every every' fresh fresh' torn whole r₁ r₂ e₁ e₂ =
      let db : Database = run q digest calls (created retention every fresh) in
      let fixed : db.change_retention ≡ retention =
        run-retention calls (created retention every fresh) in
      let durable : Durable q digest db =
        run-Durable q digest calls (created retention every fresh) whole
          (created-Durable retention every fresh) in
      let (now, opened, same, applied) =
        open_database-Same q digest db every' fresh' db.backup torn durable (omega (arith, fixed))
          (omega (arith, fixed)) e₁ e₂ in
      (
        now,
        subst
            (λ n.
              open_database digest n every' fresh' db.primary db.backup
                (record db.wal.file { torn = torn })
              ≡ ok now)
            fixed opened,
        same,
        applied,
      )
