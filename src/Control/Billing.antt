-- ===== src/Control/Billing.antt =====
-- src/control-plane.js: BillingStateProcessor.
pub mod Outcome
pub mod Again
pub mod Grants
use syncio.Base.{
  String, Bool, true, false, not, ◌&&◌, ◌||◌, Result, ok, err, type_error,
  unsupported_billing_event, project_not_found, ◌>>=◌, ◌>>◌, require, ◌==◌, if◌then◌else◌,
}
use Prim.Native.String.{◌++◌}
use syncio.Json.{Value, undefined, null, bool, str, arr, obj, Fields, end, field, get_field, truthy}
use syncio.Database.State.{Database}
use syncio.Database.Transaction.{Work, finish, throw, tx_get, tx_put}
use syncio.Control.Plans.{Plan, free, validate_plan, grants_of, texts}
use syncio.Control.Records.{
  Host, Call, or_throw, is_text, is_active, or_null, or_default, text_of, transact, after,
}
use syncio.Control.Projects.{with_plan, entitlement_of, grants_value}

-- The plan that an event asks for: the value that is stored, and the plan that it names.
unfoldable pub target_plan : Value → Value → Value → Result (Value × Plan)
unfolding validate_plan
target_plan type plan status =
    if is_text "subscription.updated" type || is_text "subscription.created" type
    then (do p ← validate_plan plan; ok (plan, p))
    else if is_text "subscription.cancelled" type || is_text "cancelled" status
    then ok (str "free", free)
    else err unsupported_billing_event

-- `billing:${provider}:past_due`, or with `:cancelled` where the plan is the free one.
unfoldable pub billing_source : String → Bool → Value → String
billing_source provider past_due plan =
    if past_due
    then "billing:" ++ (provider ++ ":past_due")
    else "billing:" ++ (provider ++ (if is_text "free" plan then ":cancelled" else ""))

-- The grants that hold while a payment is due are those of the free plan.
abbrev pub effective_plan : Bool → Plan → Plan
effective_plan past_due plan = if past_due then free else plan

abbrev pub billing_status : Bool → String
billing_status past_due = if past_due then "past_due" else "active"

-- An event, its defaults filled in.
pub record BillingEvent : Type 0 where
  pub id : Value
  pub project_id : Value
  pub type : Value
  pub plan : Value
  pub status : Value
  pub provider : Value
  pub occurred_at : Value

unfoldable pub event_of : String → Fields → BillingEvent
unfolding get_field
event_of now fs = record {
  id = get_field "id" fs;
  project_id = get_field "projectId" fs;
  type = get_field "type" fs;
  plan = get_field "plan" fs;
  status = or_default (str "active") (get_field "status" fs);
  provider = or_default (str "external") (get_field "provider" fs);
  occurred_at = or_default (str now) (get_field "occurredAt" fs);
}

-- What is stored of an event that was applied.
abbrev pub applied_event : BillingEvent → String → Value
applied_event e now = obj (
    field "id" e.id (
      field "projectId" e.project_id (
        field "type" e.type (
          field "plan" (or_null e.plan) (
            field "status" e.status (
              field "provider" e.provider
                (field "occurredAt" e.occurred_at (field "processedAt" (str now) end))))))))

-- The event is stored last; the work gives back whether it was a duplicate.
unfoldable pub store_event_work : BillingEvent → String → Work
store_event_work e now =
    tx_put "_billing_events" (applied_event e now) (or_throw λ stored. finish (bool false))

unfoldable pub entitle_work : BillingEvent → Value → Plan → String → String → Work
unfolding texts grants_of billing_source store_event_work
entitle_work e plan p now provider =
    let past_due = is_text "past_due" e.status in
    let source = str (billing_source provider past_due plan) in
    tx_put "_entitlements"
      (entitlement_of e.project_id (grants_value (effective_plan past_due p)) source e.id now)
      (or_throw λ granted. store_event_work e now)

module _ (host : Host) where
  -- The text of the provider is made where the source needs it, so it may throw.
  unfoldable pub apply_work : BillingEvent → Value → Plan → String → Value → Work
  unfolding with_plan entitle_work text_of
  apply_work e plan p now current =
      let past_due = is_text "past_due" e.status in
      or_throw
        (λ provider.
          tx_put "_projects" (with_plan current plan (billing_status past_due) now)
            (or_throw λ put. entitle_work e plan p now provider))
        (text_of host e.provider)

  unfoldable pub find_project_work : BillingEvent → Value → Plan → String → Work
  unfolding is_active apply_work
  find_project_work e plan p now = tx_get "_projects" e.project_id (
      or_throw λ current.
        if is_active current then apply_work e plan p now current else throw project_not_found)

  unfoldable pub billing_work : BillingEvent → Value → Plan → String → Work
  unfolding find_project_work truthy
  billing_work e plan p now =
      tx_get "_billing_events" e.id (
        or_throw λ seen. if truthy seen then finish (bool true) else find_project_work e plan p now)

  -- What the caller is told.
  abbrev pub billing_result : Value → Value → Value
  billing_result plan (bool true) =
      obj (field "duplicate" (bool true) (field "applied" (bool false) end))
  billing_result plan _ =
      obj (field "duplicate" (bool false) (field "applied" (bool true) (field "plan" plan end)))

  unfoldable pub check_event : BillingEvent → Result (Value × Plan)
  unfolding truthy target_plan
  check_event e = do
    require (truthy e.id && truthy e.project_id && truthy e.type) type_error
    target_plan e.type e.plan e.status

  -- What is done once the event has been checked.
  unfoldable pub process_checked :
      Call → BillingEvent → Result (Value × Plan) → Database → Result Value × Database
  unfolding billing_work transact
  process_checked call e (err thrown) db = (err thrown, db)
  process_checked call e (ok (plan, p)) db =
      after (billing_result plan) (transact host call (billing_work e plan p call.now) db)

  unfoldable pub process : Call → Value → Database → Result Value × Database
  unfolding event_of check_event process_checked
  process call (obj fs) db =
      let e = event_of call.now fs in process_checked call e (check_event e) db
  process call _ db = (err type_error, db)
