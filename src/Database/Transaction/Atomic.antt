-- ===== src/Database/Transaction/Atomic.antt =====
-- A transaction happens as a whole or not at all (src/index.js: transaction).
use syncio.Base.{
  ◌≡◌, sym, ap, ◌∙◌, subst, String, List, [], ◌∷◌, Error, ok, err, >>=-eq-ok, ok-injective,
}
use syncio.Base.Maps.{Map}
use syncio.Json.{Value}
use syncio.Change.{Change}
use syncio.Wal.{Payload}
use syncio.Database.State.{Collection, State, Database}
use syncio.Database.Events.{Env, append_changes}
use syncio.Database.Same.{Equality, AlikeMaps, Alike-refl, at}
use syncio.Database.Appended.{append_changes-collections}
use syncio.Database.Commit.{Io}
use syncio.Database.Collection.{
  Write, insert, upsert, remove, decide_insert, decide_upsert, decide_remove,
}
use syncio.Database.Kept.{kept_by, perform-done, perform-failed}
use syncio.Database.Transaction.{
  Work, run_work, diff_collections, write_of, decide_transaction, transaction,
}
use syncio.Database.Transaction.Tracks.{run_work-Tracks}
use syncio.Database.Transaction.Diff.{diff_collections_lem}
use syncio.Database.Transaction.Steps.{change_effects}

module _ (q : Equality) (digest : Payload → String) (io : Io) (env : Env) where
  -- What a transaction keeps: the draft of its work, or the old state where that holds the same.
  kept_by-write_of :
      (db : Database) (result : Value) (after m : Map Collection) (changes : List Change)
      → change_effects changes db.state.collections ≡ ok m
      → AlikeMaps q m after
      → AlikeMaps q
          (kept_by digest io
            (write_of db.change_retention env result
              (record db.state { collections = after })
              changes)
            db).collections
          after
  unfolding write_of append_changes change_effects
  kept_by-write_of db result after m [] run alike =
      subst (λ cs. AlikeMaps q cs after) (sym (ok-injective run)) alike
  kept_by-write_of db result after m (c ∷ cs) run alike =
      subst (λ ds. AlikeMaps q ds after)
        (sym (
          append_changes-collections db.change_retention env
            (record db.state { collections = after }) (c ∷ cs)))
        (λ name id. Alike-refl q (at q name id after))

  decide_transaction-done :
      (work : Work) (db : Database) (w : Write Value)
      → decide_transaction q db.change_retention env work db.state ≡ ok w
      → ((run_work work db.state.collections).0 ≡ ok w.result)
        × AlikeMaps q (kept_by digest io w db).collections (run_work work db.state.collections).1
  unfolding decide_transaction write_of
  decide_transaction-done work db w h =
      let cs : Map Collection = db.state.collections in
      let after : Map Collection = (run_work work cs).1 in
      let (result, ran, h₁) = >>=-eq-ok (run_work work cs).0 _ h in
      let (changes, found, h₂) = >>=-eq-ok (diff_collections q cs after) _ h₁ in
      let (m, run, alike) =
        diff_collections_lem q cs after changes (run_work-Tracks work cs) found in
      subst
        (λ (w : Write Value).
          ((run_work work cs).0 ≡ ok w.result)
          × AlikeMaps q (kept_by digest io w db).collections after)
        (ok-injective h₂) (ran, kept_by-write_of db result after m changes run alike)

  -- A successful transaction gives its work's result, and leaves under each name and identity a record
  -- equal to the one that the work left in its draft, or none if it left none.
  pub transaction-AlikeMaps :
      (work : Work) (db : Database) (v : Value)
      → (transaction q digest io env work db).0 ≡ ok v
      → ((run_work work db.state.collections).0 ≡ ok v)
        × AlikeMaps q
            (transaction q digest io env work db).1.state.collections
            (run_work work db.state.collections).1
  unfolding transaction
  transaction-AlikeMaps work db v h =
      let (w, decided, result, state) =
        perform-done digest io (decide_transaction q db.change_retention env work db.state) db v
          h in
      let (ran, alike) = decide_transaction-done work db w decided in
      (
        ran ∙ ap ok (sym result),
        subst (λ (s : State). AlikeMaps q s.collections (run_work work db.state.collections).1)
            (sym state) alike,
      )

  -- A transaction, an insertion, an upsertion or a removal that fails leaves the state in memory as it
  -- was, whatever the reason: a check, the work, the log or its file.
  pub transaction-failed :
      (work : Work) (name : String) (value id : Value) (db : Database) (e : Error)
      → ((transaction q digest io env work db).0 ≡ err e
          → (transaction q digest io env work db).1.state ≡ db.state)
        × ((insert digest io env name value db).0 ≡ err e
            → (insert digest io env name value db).1.state ≡ db.state)
        × ((upsert digest io env name value db).0 ≡ err e
            → (upsert digest io env name value db).1.state ≡ db.state)
        × ((remove digest io env name id db).0 ≡ err e
            → (remove digest io env name id db).1.state ≡ db.state)
  unfolding transaction insert upsert remove
  transaction-failed work name value id db e = (
    perform-failed digest io (decide_transaction q db.change_retention env work db.state) db e,
    perform-failed digest io (decide_insert db.change_retention env name value db.state) db e,
    perform-failed digest io (decide_upsert db.change_retention env name value db.state) db e,
    perform-failed digest io (decide_remove db.change_retention env name id db.state) db e,
  )
