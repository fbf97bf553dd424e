-- ===== src/Control/Billing/Again.antt =====
-- A billing event takes effect once (src/control-plane.js: BillingStateProcessor.process).
use syncio.Base.{
  ◌≡◌, inl, inr, sym, ap, subst, ◌∙◌, String, true, false, Result, ok, err, ok-injective,
}
use syncio.Base.Maps.{Map}
use syncio.Json.{Value, bool, str, obj, end, field, Fields, truthy}
use syncio.Database.State.{Collection, State, Database}
use syncio.Database.Same.{AlikeMaps, Alike-refl, at}
use syncio.Database.Collection.{read}
use syncio.Database.Transaction.{run_work, opened}
use syncio.Control.Plans.{Plan}
use syncio.Control.Records.{Host, Call, transact, after}
use syncio.Control.Steps.{read-opened}
use syncio.Control.Transact.{
  str-injective, transact-cases, truthy-Alike, AlikeMaps-opened, after-ok, after-state, after-eq-ok,
}
use syncio.Control.Billing.{
  BillingEvent, event_of, check_event, billing_work, billing_result, process, process_checked,
}
use syncio.Control.Billing.Outcome.{billing_work-cases}

module _ (host : Host) where
  -- An event whose identity is stored.
  pub record IsStored (id : Value) (cs : Map Collection) : Type 0 where
    pub key : String
    pub named : id ≡ str key
    pub there : truthy (read "_billing_events" key cs) ≡ true

  IsStored-alike :
      (id : Value) (cs ds : Map Collection)
      → AlikeMaps host.equality cs ds
      → IsStored id ds
      → IsStored id cs
  unfolding read
  IsStored-alike id cs ds alike stored = record {
    key = stored.key;
    named = stored.named;
    there = truthy-Alike host _ _ (alike "_billing_events" stored.key) ∙ stored.there;
  }

  module _ (e : BillingEvent) (plan : Value) (p : Plan) (now : String) where
    billing_work-IsStored :
        (cs : Map Collection) (v : Value)
        → (run_work (billing_work host e plan p now) cs).0 ≡ ok v
        → IsStored e.id (run_work (billing_work host e plan p now) cs).1
    unfolding truthy
    billing_work-IsStored cs v h = elim (billing_work-cases host e plan p now cs v h) [
      | inl (_, seen) ↦ record {
        key = seen.key;
        named = seen.named;
        there =
            ap (λ ds. truthy (read "_billing_events" seen.key ds)) seen.same
            ∙ ap truthy (read-opened "_billing_events" cs "_billing_events" seen.key)
            ∙ seen.seen;
      }
      | inr (_, (_, applied)) ↦ record {
        key = applied.key;
        named = applied.named;
        there = ap truthy applied.event;
      }
    ]

    -- Of a stored event the work only names a collection.
    billing_work-stored :
        (cs : Map Collection) (v : Value)
        → IsStored e.id cs
        → (run_work (billing_work host e plan p now) cs).0 ≡ ok v
        → (v ≡ bool true)
          × ((run_work (billing_work host e plan p now) cs).1 ≡ opened "_billing_events" cs)
    billing_work-stored cs v stored h = elim (billing_work-cases host e plan p now cs v h) [
      | inl (same, seen) ↦ (same, seen.same)
      | inr (new, _) ↦
          let same_key : new.key ≡ stored.key = str-injective (sym new.named ∙ stored.named) in
          let bad : true ≡ false =
            sym stored.there
            ∙ ap (λ k. truthy (read "_billing_events" k cs)) (sym same_key)
            ∙ new.unseen in
          cc
    ]

  -- What is answered for an event that has been seen.
  abbrev pub duplicate : Value
  duplicate = obj (field "duplicate" (bool true) (field "applied" (bool false) end))

  stored-transact :
      (e : BillingEvent) (plan : Value) (p : Plan) (now : String) (call : Call) (db : Database)
      → IsStored e.id db.state.collections
      → AlikeMaps host.equality
          (transact host call (billing_work host e plan p now) db).1.state.collections
          db.state.collections
        × ((w : Value)
            → (after
                (billing_result host plan)
                (transact host call (billing_work host e plan p now) db)).0
              ≡ ok w
            → w ≡ duplicate)
  stored-transact e plan p now call db stored =
      elim (transact-cases host call (billing_work host e plan p now) db) [
        | inl (v, done, ran, alike) ↦
            let cs = db.state.collections in
            let (told, named) = billing_work-stored e plan p now cs v stored ran in
            (
              AlikeMaps-opened host "_billing_events" _ cs (
                  subst
                    (AlikeMaps host.equality
                      (transact host call (billing_work host e plan p now) db).1.state.collections)
                    named alike),
              λ w h.
                  ok-injective (sym h ∙ after-ok (billing_result host plan) _ v done)
                  ∙ ap (billing_result host plan) told,
            )
        | inr (thrown, failed, same) ↦ (
          subst (λ (s : State). AlikeMaps host.equality s.collections db.state.collections)
              (sym same)
              (λ name k. Alike-refl host.equality (at host.equality name k db.state.collections)),
          λ w h.
              let (v, done) = after-eq-ok (billing_result host plan) _ w h in
              let bad = sym failed ∙ done in cc,
        )
      ]

  -- What processing an event again does: the records are as they were, and if it returns it answers that
  -- the event is a duplicate.
  pub record IsIgnored (before : Database) (second : Result Value × Database) : Type 0 where
    pub kept : AlikeMaps host.equality second.1.state.collections before.state.collections
    pub told : (w : Value) → second.0 ≡ ok w → w ≡ duplicate

  process_checked-IsStored :
      (call : Call) (e : BillingEvent) (checked : Result (Value × Plan)) (db : Database) (v : Value)
      → (process_checked host call e checked db).0 ≡ ok v
      → IsStored e.id (process_checked host call e checked db).1.state.collections
  unfolding process_checked
  process_checked-IsStored call e (err thrown) db v h = cc
  process_checked-IsStored call e (ok (plan, p)) db v h =
      elim (transact-cases host call (billing_work host e plan p call.now) db) [
        | inl (u, done, ran, alike) ↦
            subst (IsStored e.id) (sym (after-state (billing_result host plan) _)) (
              IsStored-alike e.id _ _ alike
                (billing_work-IsStored e plan p call.now db.state.collections u ran))
        | inr (thrown, failed, same) ↦
            let (u, done) = after-eq-ok (billing_result host plan) _ v h in
            let bad = sym failed ∙ done in cc
      ]

  process_checked-IsIgnored :
      (call : Call) (e : BillingEvent) (checked : Result (Value × Plan)) (db : Database)
      → IsStored e.id db.state.collections
      → IsIgnored db (process_checked host call e checked db)
  unfolding process_checked
  process_checked-IsIgnored call e (err thrown) db stored = record {
    kept = λ name k. Alike-refl host.equality (at host.equality name k db.state.collections);
    told = λ w h. cc;
  }
  process_checked-IsIgnored call e (ok (plan, p)) db stored =
      let (kept, told) = stored-transact e plan p call.now call db stored in
      record {
        kept =
            subst (λ cs. AlikeMaps host.equality cs db.state.collections)
              (sym (after-state (billing_result host plan) _)) kept;
        told = told;
      }

  -- An event that was processed is ignored when it is processed again, by whatever call: the records
  -- stay alike, and if the second call returns, it answers that the event is a duplicate.
  pub process-IsIgnored :
      (first again : Call) (fs : Fields) (db : Database) (v : Value)
      → (process host first (obj fs) db).0 ≡ ok v
      → IsIgnored
          (process host first (obj fs) db).1
          (process host again (obj fs) (process host first (obj fs) db).1)
  unfolding process event_of
  process-IsIgnored first again fs db v h =
      let e = event_of first.now fs in
      process_checked-IsIgnored again (event_of again.now fs)
        (check_event host (event_of again.now fs)) _
        (process_checked-IsStored first e (check_event host e) db v h)
