-- ===== src/Control/Billing/Grants.antt =====
-- The entitlements that a billing event leaves (src/control-plane.js: BillingStateProcessor.process).
use syncio.Base.{◌≡◌, inl, inr, refl, sym, ap, subst, ◌∙◌, true, false, ok, ok-injective}
use syncio.Json.{Value, bool, obj, Fields, get_field, property}
use syncio.Database.State.{Database}
use syncio.Database.Same.{AlikeMaps}
use syncio.Database.Transaction.{run_work}
use syncio.Control.Plans.{Plan}
use syncio.Control.Records.{Host, Call, is_text}
use syncio.Control.Transact.{transact-cases, after-ok, after-eq-ok, after-state}
use syncio.Control.Entitled.{AreGrants, stored-AreGrants}
use syncio.Control.Billing.{
  BillingEvent, event_of, check_event, billing_work, billing_result, effective_plan,
  process_checked, process,
}
use syncio.Control.Billing.Outcome.{billing_work-cases}

module _ (host : Host) where
  abbrev pub applied : Value → Value
  applied plan = billing_result host plan (bool false)

  process_checked-AreGrants :
      (call : Call) (e : BillingEvent) (plan : Value) (p : Plan) (db : Database)
      → (process_checked host call e (ok (plan, p)) db).0 ≡ ok (applied plan)
      → AreGrants host e.project_id
          (effective_plan (is_text "past_due" e.status) p)
          (process_checked host call e (ok (plan, p)) db).1
  unfolding process_checked property get_field
  process_checked-AreGrants call e plan p db h =
      elim (transact-cases host call (billing_work host e plan p call.now) db) [
        | inr (thrown, failed, same) ↦
            let (u, done) = after-eq-ok (billing_result host plan) _ (applied plan) h in
            let bad = sym failed ∙ done in cc
        | inl (v, done, ran, alike) ↦
            elim (billing_work-cases host e plan p call.now db.state.collections v ran) [
              | inl (duplicate, seen) ↦
                  let told = after-ok (billing_result host plan) _ v done in
                  let same : billing_result host plan (bool true) ≡ applied plan =
                    ap (billing_result host plan) (sym duplicate) ∙ ok-injective (sym told ∙ h) in
                  let bad : bool true ≡ bool false = ap (property "duplicate") same in cc
              | inr (new, (told, is_applied)) ↦
                  stored-AreGrants host e.project_id is_applied.project_key _ _ _
                    (run_work (billing_work host e plan p call.now) db.state.collections).1
                    is_applied.project_named
                    (subst
                      (λ cs.
                        AlikeMaps host.equality cs
                          (run_work (billing_work host e plan p call.now) db.state.collections).1)
                      (sym (after-state (billing_result host plan) _)) alike)
                    is_applied.grants refl
            ]
      ]

  -- If an event that passes the checks is answered as applied, the entitlements that are read for its
  -- project are then the grants of the plan that it asks for, or of the free plan if it says that a
  -- payment is due.
  pub process-AreGrants :
      (call : Call) (fs : Fields) (plan : Value) (p : Plan) (db : Database)
      → check_event host (event_of call.now fs) ≡ ok (plan, p)
      → (process host call (obj fs) db).0 ≡ ok (applied plan)
      → AreGrants host
          (event_of call.now fs).project_id
          (effective_plan (is_text "past_due" (event_of call.now fs).status) p)
          (process host call (obj fs) db).1
  unfolding process
  process-AreGrants call fs plan p db checked h =
      let e = event_of call.now fs in
      subst
        (λ r.
          (process_checked host call e r db).0 ≡ ok (applied plan)
          → AreGrants host e.project_id (effective_plan (is_text "past_due" e.status) p)
              (process_checked host call e r db).1)
        (sym checked) (process_checked-AreGrants call e plan p db) h
