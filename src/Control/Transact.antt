-- ===== src/Control/Transact.antt =====
-- What a transaction of the control plane leaves (src/control-plane.js: its calls of `transaction`).
use syncio.Base.{
  ◌≡◌, ◌⊎◌, inl, inr, refl, ap, subst, String, true, Result, Result-cases, ok, err, ok-injective,
  Option, none, some, Error,
}
use syncio.Base.Maps.{Map}
use syncio.Json.{Value, undefined, str, truthy}
use syncio.Database.State.{Collection, Database}
use syncio.Database.Same.{AlikeMaps, Alike, at}
use syncio.Database.Collection.{read, some_or_undefined}
use syncio.Database.Transaction.{Work, run_work, opened}
use syncio.Database.Transaction.Atomic.{transaction-AlikeMaps, transaction-failed}
use syncio.Control.Records.{Host, Call, transact, after}
use syncio.Control.Steps.{get-opened}

pub str-injective : {s t : String} → str s ≡ str t → s ≡ t
str-injective h = cc

pub after-ok :
    (answer : Value → Value) (r : Result Value × Database) (v : Value)
    → r.0 ≡ ok v
    → (after answer r).0 ≡ ok (answer v)
after-ok answer (ok w, db) v h = ap (λ u. ok (answer u)) (ok-injective h)
after-ok answer (err e, db) v h = cc

pub after-state :
    (answer : Value → Value) (r : Result Value × Database)
    → (after answer r).1.state.collections ≡ r.1.state.collections
after-state answer (ok v, db) = refl
after-state answer (err e, db) = refl

pub after-err :
    (answer : Value → Value) (r : Result Value × Database) (e : Error)
    → r.0 ≡ err e
    → (after answer r).0 ≡ err e
after-err answer (ok v, db) e h = cc
after-err answer (err thrown, db) e h = h

pub after-database :
    (answer : Value → Value) (r : Result Value × Database) → (after answer r).1.state ≡ r.1.state
after-database answer (ok v, db) = refl
after-database answer (err e, db) = refl

pub after-eq-ok :
    (answer : Value → Value) (r : Result Value × Database) (w : Value)
    → (after answer r).0 ≡ ok w
    → (v : Value) × (r.0 ≡ ok v)
after-eq-ok answer (ok v, db) w h = (v, refl)
after-eq-ok answer (err e, db) w h = cc

module _ (host : Host) where
  -- A transaction either gives its work's result and leaves what the work left, up to deep equality, or
  -- throws and leaves the state.
  pub transact-cases :
      (call : Call) (work : Work) (db : Database)
      → ((v : Value) × ((transact host call work db).0 ≡ ok v)
          × ((run_work work db.state.collections).0 ≡ ok v)
          × AlikeMaps host.equality
              (transact host call work db).1.state.collections
              (run_work work db.state.collections).1)
        ⊎ ((e : Error) × ((transact host call work db).0 ≡ err e)
            × ((transact host call work db).1.state ≡ db.state))
  unfolding transact
  transact-cases call work db = elim (Result-cases (transact host call work db).0) [
    | inl (v, done) ↦
        let (ran, alike) =
          transaction-AlikeMaps host.equality host.digest call.io call.env work db v done in
        inl (v, done, ran, alike)
    | inr (e, failed) ↦ inr (
      e,
      failed,
      (transaction-failed host.equality host.digest call.io call.env work "" undefined undefined db
            e).0
          failed,
    )
  ]

  pub truthy-Alike :
      (o p : Option Value)
      → Alike host.equality o p
      → truthy (some_or_undefined o) ≡ truthy (some_or_undefined p)
  truthy-Alike none none h = refl
  truthy-Alike (some v) (some w) h = host.equality.of_truthy v w h
  truthy-Alike none (some w) h = absurd h
  truthy-Alike (some v) none h = absurd h

  pub AlikeMaps-opened :
      (name : String) (cs ds : Map Collection)
      → AlikeMaps host.equality cs (opened name ds)
      → AlikeMaps host.equality cs ds
  AlikeMaps-opened name cs ds h n k =
      subst (Alike host.equality (at host.equality n k cs)) (get-opened name ds n k) (h n k)

  -- Records that are alike are read as equal values.
  deep_equal-Alike :
      (o p : Option Value)
      → Alike host.equality o p
      → host.equality.deep_equal (some_or_undefined o) (some_or_undefined p) ≡ true
  deep_equal-Alike none none h = host.equality.reflexive undefined
  deep_equal-Alike (some v) (some w) h = h
  deep_equal-Alike none (some w) h = absurd h
  deep_equal-Alike (some v) none h = absurd h

  pub read-alike :
      (cs ds : Map Collection) (name key : String)
      → AlikeMaps host.equality cs ds
      → host.equality.deep_equal (read name key cs) (read name key ds) ≡ true
  unfolding read
  read-alike cs ds name key alike = deep_equal-Alike _ _ (alike name key)
