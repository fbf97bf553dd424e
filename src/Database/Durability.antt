-- ===== src/Database/Durability.antt =====
-- The writes and the transaction keep a durable database durable (src/index.js: insert, upsert, remove,
-- transaction).
use syncio.Base.{
  ℕ, ◌≡◌, ◌⊎◌, refl, ◌∙◌, String, inl, inr, List, [], ◌∷◌, Result, ok, err, >>=-eq-ok, ok-injective,
}
use syncio.Base.Maps.{Map}
use syncio.Json.{Value}
use syncio.Change.{Change}
use syncio.Wal.{Payload, synced, unwritten}
use syncio.Database.State.{Collection, State, Database}
use syncio.Database.Events.{Env, append_changes}
use syncio.Database.History.{IsOrdered, IsOrdered-collections}
use syncio.Database.Same.{Equality, AlikeMaps}
use syncio.Database.Appended.{append_changes-Extends, append_changes-IsOrdered}
use syncio.Database.Commit.{Io, commit_events}
use syncio.Database.Transaction.{
  Work, run_work, diff_collections, write_of, decide_transaction, transaction,
}
use syncio.Database.Transaction.Tracks.{run_work-Tracks}
use syncio.Database.Transaction.Diff.{diff_collections_lem}
use syncio.Database.Transaction.Steps.{change_effects, effects-append_changes}
use syncio.Database.Recovery.{Durable}
use syncio.Database.Recovery.Commit.{commit_events-Durable}
use syncio.Database.Collection.{
  Write, decide_insert, decide_upsert, decide_remove, report, perform, insert, upsert, remove,
}
use syncio.Database.Decided.{
  IsCommit, decide_insert-IsCommit, decide_upsert-IsCommit, decide_remove-IsCommit,
}

-- The write of a transaction is a commit if its changes' effects leave what the draft holds.
write_of-IsCommit :
    (q : Equality) (retention : ℕ) (env : Env) (result : Value) (s : State) (after : Map Collection)
    (changes : List Change)
    → IsOrdered s
    → ((m : Map Collection) × (change_effects changes s.collections ≡ ok m) × AlikeMaps q m after)
    → IsCommit q retention s
        (write_of retention env result (record s { collections = after }) changes)
unfolding write_of
write_of-IsCommit q retention env result s after [] inv all = inl (unfold append_changes in refl)
write_of-IsCommit q retention env result s after (c ∷ more) inv (m, run, alike) = inr (
  append_changes-Extends retention env q s after c more m
      (effects-append_changes retention env (record s { collections = after }) (c ∷ more)
          s.collections
        ∙ run)
      alike,
  append_changes-IsOrdered retention env (record s { collections = after }) (c ∷ more)
      (IsOrdered-collections after s inv),
)

module _ (q : Equality) (digest : Payload → String) (io : Io)
    (line : (io.line ≡ synced) ⊎ (io.line ≡ unwritten)) where
  report-Durable :
      {A : Type 0} (result : A) (r : Result (Unit {0}) × Database)
      → Durable q digest r.1
      → Durable q digest (report result r).1
  unfolding report
  report-Durable result (err e, db) d = d
  report-Durable result (ok _, db) d = d

  pub perform-Durable :
      {A : Type 0} (r : Result (Write A)) (db : Database)
      → ((w : Write A) → r ≡ ok w → IsCommit q db.change_retention db.state w)
      → Durable q digest db
      → Durable q digest (perform digest io r db).1
  unfolding perform
  perform-Durable (err e) db decided d = d
  perform-Durable (ok w) db decided d =
      report-Durable w.result (commit_events digest io w.draft w.events db) (elim (decided w refl) [
        | inl none ↦ rw none (unfold commit_events in d)
        | inr (commit, ordered) ↦
            commit_events-Durable q digest io w.draft w.events db line d commit ordered
      ])

  -- Inserting, upserting and removing a record keep a durable database durable, whatever the checkpoint
  -- and the compaction do, if the line of the log is synced or not written at all.
  pub insert-Durable :
      (env : Env) (name : String) (value : Value) (db : Database)
      → Durable q digest db
      → Durable q digest (insert digest io env name value db).1
  unfolding insert
  insert-Durable env name value db d =
      perform-Durable (decide_insert db.change_retention env name value db.state) db
        (decide_insert-IsCommit q db.change_retention env name db.state d.ordered value) d

  pub upsert-Durable :
      (env : Env) (name : String) (value : Value) (db : Database)
      → Durable q digest db
      → Durable q digest (upsert digest io env name value db).1
  unfolding upsert
  upsert-Durable env name value db d =
      perform-Durable (decide_upsert db.change_retention env name value db.state) db
        (decide_upsert-IsCommit q db.change_retention env name db.state d.ordered value) d

  pub remove-Durable :
      (env : Env) (name : String) (id : Value) (db : Database)
      → Durable q digest db
      → Durable q digest (remove digest io env name id db).1
  unfolding remove
  remove-Durable env name id db d =
      perform-Durable (decide_remove db.change_retention env name id db.state) db
        (decide_remove-IsCommit q db.change_retention env name db.state d.ordered id) d

-- A transaction decides nothing, or a commit that extends the state.
decide_transaction-IsCommit :
    (q : Equality) (retention : ℕ) (env : Env) (work : Work) (s : State) (w : Write Value)
    → IsOrdered s
    → decide_transaction q retention env work s ≡ ok w
    → IsCommit q retention s w
unfolding decide_transaction
decide_transaction-IsCommit q retention env work s w inv h =
    let after : Map Collection = (run_work work s.collections).1 in
    let (result, _, h₁) = >>=-eq-ok (run_work work s.collections).0 _ h in
    let (changes, found, h₂) = >>=-eq-ok (diff_collections q s.collections after) _ h₁ in
    rw (← ok-injective h₂) (
      write_of-IsCommit q retention env result s after changes inv (
        diff_collections_lem q s.collections after changes (run_work-Tracks work s.collections)
          found))

-- A transaction keeps a durable database durable, whatever its work does and whatever the checkpoint and
-- the compaction do, if the line of the log is synced or not written at all.
pub transaction-Durable :
    (q : Equality) (digest : Payload → String) (io : Io) (env : Env) (work : Work) (db : Database)
    → (io.line ≡ synced) ⊎ (io.line ≡ unwritten)
    → Durable q digest db
    → Durable q digest (transaction q digest io env work db).1
unfolding transaction
transaction-Durable q digest io env work db line d =
    perform-Durable q digest io line (decide_transaction q db.change_retention env work db.state) db
      (λ w. decide_transaction-IsCommit q db.change_retention env work db.state w d.ordered) d
