-- ===== src/Control/Billing/Outcome.antt =====
-- What a billing event's transaction leaves (src/control-plane.js: BillingStateProcessor.process).
use syncio.Base.{
  project_not_found, ◌≡◌, ◌⊎◌, inl, inr, refl, sym, ap, subst, ◌∙◌, String, Bool, true, false,
  Bool-cases, Result, ok, ok-injective, if◌then◌else◌,
}
use syncio.Base.Maps.{Map}
use syncio.Json.{Value, bool, str, truthy, get_field}
use syncio.Database.State.{Collection}
use syncio.Database.Replay.{store}
use syncio.Database.Collection.{read}
use syncio.Database.Transaction.{finish, throw, run_work, opened}
use syncio.Control.Plans.{Plan}
use syncio.Control.Records.{Host, is_text, is_active, text_of}
use syncio.Control.Steps.{
  found, tx_get-Got, tx_put-Put, tx_put-run, read-store, read-store_other, read-opened,
  or_throw-run, truthy-found,
}
use syncio.Control.Projects.{grants_value, entitlement_of}
use syncio.Control.Billing.{
  BillingEvent, applied_event, effective_plan, billing_source, store_event_work, entitle_work,
  apply_work, find_project_work, billing_work,
}

-- The stored event is the last write, and no duplicate is reported.
store_event_work-run :
    (e : BillingEvent) (now key : String) (cs : Map Collection) (v : Value)
    → e.id ≡ str key
    → (run_work (store_event_work e now) cs).0 ≡ ok v
    → run_work (store_event_work e now) cs ≡ (
      ok (bool false),
      store "_billing_events" key (applied_event e now) (opened "_billing_events" cs),
    )
unfolding store_event_work run_work get_field
store_event_work-run e now key cs v named h = tx_put-run "_billing_events" _ key _ cs v named h

-- The entitlement record that the event asks for, by the text of its provider.
abbrev pub entitlement : BillingEvent → Value → Plan → String → String → Value
entitlement e plan p now provider =
    let past_due = is_text "past_due" e.status in
    entitlement_of e.project_id (grants_value (effective_plan past_due p))
      (str (billing_source provider past_due plan)) e.id now

entitle_work-run :
    (e : BillingEvent) (plan : Value) (p : Plan) (now provider key project_key : String)
    (cs : Map Collection) (v : Value)
    → e.id ≡ str key
    → e.project_id ≡ str project_key
    → (run_work (entitle_work e plan p now provider) cs).0 ≡ ok v
    → run_work (entitle_work e plan p now provider) cs ≡ (
      ok (bool false),
      store "_billing_events" key (applied_event e now) (
          opened "_billing_events" (
            store "_entitlements" project_key
              (entitlement e plan p now provider)
              (opened "_entitlements" cs))),
    )
unfolding entitle_work get_field
entitle_work-run e plan p now provider key project_key cs v named project_named h =
    let run = tx_put-run "_entitlements" _ project_key _ cs v project_named h in
    run ∙ store_event_work-run e now key _ v named (sym (ap (λ r. r.0) run) ∙ h)

module _ (host : Host) (e : BillingEvent) (plan : Value) (p : Plan) (now : String) where
  -- What the records are behind an event that was applied.
  pub record IsApplied (after : Map Collection) : Type 0 where
    pub key : String
    pub project_key : String
    pub provider : String
    pub named : e.id ≡ str key
    pub project_named : e.project_id ≡ str project_key
    pub event : read "_billing_events" key after ≡ applied_event e now
    pub grants : read "_entitlements" project_key after ≡ entitlement e plan p now provider

  -- What the records are behind one that had been seen.
  pub record IsSeen (cs after : Map Collection) : Type 0 where
    pub key : String
    pub named : e.id ≡ str key
    pub seen : truthy (read "_billing_events" key cs) ≡ true
    pub same : after ≡ opened "_billing_events" cs

  pub record IsNew (cs : Map Collection) : Type 0 where
    pub key : String
    pub named : e.id ≡ str key
    pub unseen : truthy (read "_billing_events" key cs) ≡ false

  entitled-IsApplied :
      (provider key project_key : String) (cs : Map Collection) (v : Value)
      → e.id ≡ str key
      → e.project_id ≡ str project_key
      → (run_work (entitle_work e plan p now provider) cs).0 ≡ ok v
      → (v ≡ bool false) × IsApplied (run_work (entitle_work e plan p now provider) cs).1
  entitled-IsApplied provider key project_key cs v named project_named h =
      let body = entitlement e plan p now provider in
      let granted = store "_entitlements" project_key body (opened "_entitlements" cs) in
      let run = entitle_work-run e plan p now provider key project_key cs v named project_named h in
      (
        ok-injective (sym h ∙ ap (λ r. r.0) run),
        subst IsApplied (sym (ap (λ r. r.1) run)) (record {
          key = key;
          project_key = project_key;
          provider = provider;
          named = named;
          project_named = project_named;
          event =
              read-store "_billing_events" key (applied_event e now)
                (opened "_billing_events" granted);
          grants =
              read-store_other "_billing_events" key (applied_event e now)
                (opened "_billing_events" granted) "_entitlements" project_key refl
              ∙ read-opened "_billing_events" granted "_entitlements" project_key
              ∙ read-store "_entitlements" project_key body (opened "_entitlements" cs);
        }),
      )

  -- What a successful run of the rest of the work means.
  abbrev pub Applies : Value → Result Value × Map Collection → Type 0
  Applies v run = (v ≡ bool false) × IsApplied run.1

  apply_work-IsApplied :
      (current : Value) (key project_key : String) (cs : Map Collection) (v : Value)
      → e.id ≡ str key
      → e.project_id ≡ str project_key
      → (run_work (apply_work host e plan p now current) cs).0 ≡ ok v
      → Applies v (run_work (apply_work host e plan p now current) cs)
  unfolding apply_work
  apply_work-IsApplied current key project_key cs v named project_named h =
      let (provider, _, converted) = or_throw-run (text_of host e.provider) _ cs v h in
      let h₁ = sym (ap (λ r. r.0) converted) ∙ h in
      let put = tx_put-Put "_projects" _ _ cs v h₁ in
      let h₂ = sym (ap (λ r. r.0) put.runs) ∙ h₁ in
      subst (Applies v) (sym (converted ∙ put.runs))
        (entitled-IsApplied provider key project_key _ v named project_named h₂)

  find_project_work-IsApplied :
      (key : String) (cs : Map Collection) (v : Value)
      → e.id ≡ str key
      → (run_work (find_project_work host e plan p now) cs).0 ≡ ok v
      → Applies v (run_work (find_project_work host e plan p now) cs)
  unfolding find_project_work run_work
  find_project_work-IsApplied key cs v named h =
      let got = tx_get-Got "_projects" e.project_id _ cs v h in
      let current = found "_projects" got.key cs in
      let work = λ (active : Bool).
        if active then apply_work host e plan p now current else throw project_not_found in
      let runs = λ (b : Bool) (active : is_active current ≡ b).
        got.runs ∙ ap (λ a. run_work (work a) (opened "_projects" cs)) active in
      elim (Bool-cases (is_active current)) [
        | inl active ↦ subst (Applies v) (sym (runs true active)) (
            apply_work-IsApplied current key got.key (opened "_projects" cs) v named got.named
              (sym (ap (λ r. r.0) (runs true active)) ∙ h))
        | inr absent ↦ let bad = sym (ap (λ r. r.0) (runs false absent)) ∙ h in cc
      ]

  -- A transaction that returns has met a duplicate and only named a collection, or it has applied the
  -- event.
  pub billing_work-cases :
      (cs : Map Collection) (v : Value)
      → (run_work (billing_work host e plan p now) cs).0 ≡ ok v
      → (v ≡ bool true) × IsSeen cs (run_work (billing_work host e plan p now) cs).1
        ⊎ IsNew cs × Applies v (run_work (billing_work host e plan p now) cs)
  unfolding billing_work run_work
  billing_work-cases cs v h =
      let got = tx_get-Got "_billing_events" e.id _ cs v h in
      let seen = found "_billing_events" got.key cs in
      let work =
        λ (b : Bool). if b then finish (bool true) else find_project_work host e plan p now in
      let runs = λ (b : Bool) (is_seen : truthy seen ≡ b).
        got.runs ∙ ap (λ a. run_work (work a) (opened "_billing_events" cs)) is_seen in
      elim (Bool-cases (truthy seen)) [
        | inl duplicate ↦ inl (
          ok-injective (sym h ∙ ap (λ r. r.0) (runs true duplicate)),
          record {
            key = got.key;
            named = got.named;
            seen = sym (truthy-found "_billing_events" got.key cs) ∙ duplicate;
            same = ap (λ r. r.1) (runs true duplicate);
          },
        )
        | inr new ↦ inr (
          record {
            key = got.key;
            named = got.named;
            unseen = sym (truthy-found "_billing_events" got.key cs) ∙ new;
          },
          subst (Applies v) (sym (runs false new)) (
              find_project_work-IsApplied got.key (opened "_billing_events" cs) v got.named
                (sym (ap (λ r. r.0) (runs false new)) ∙ h)),
        )
      ]
