-- ===== src/Control/Projects.antt =====
-- src/control-plane.js: createProject, project, entitlements and changePlan.
use syncio.Base.{
  String, not, ◌&&◌, Result, ok, err, type_error, account_not_found, project_not_found, ◌>>=◌, ◌>>◌,
  require, ◌==◌, leb, if◌then◌else◌,
}
use syncio.Json.{
  Value, undefined, null, str, arr, obj, nil, end, field, property, set_field, truthy, codes,
  utf16_length,
}
use syncio.Database.State.{Database}
use syncio.Database.Transaction.{Work, finish, throw, tx_get, tx_put}
use syncio.Control.Plans.{Plan, grants_of, texts, validate_plan}
use syncio.Control.Texts.{trim}
use syncio.Control.Records.{
  Host, Call, or_throw, fetch, is_active, spread, spread_items, transact, or_default,
}

-- `[...PLAN_ENTITLEMENTS[plan]]`
abbrev pub grants_value : Plan → Value
grants_value plan = arr (texts (grants_of plan))

-- A project's name: a text that is not blank and has at most 120 units.
unfoldable pub project_name : Value → Result String
unfolding trim
project_name (str name) =
    if not (trim name == "") && leb (utf16_length (codes name)) 120
    then ok (trim name)
    else err type_error
project_name _ = err type_error

abbrev pub project_of : String → Value → String → Value → String → Value
project_of id account_id name plan now = obj (
    field "id" (str id) (
      field "accountId" account_id (
        field "name" (str name) (
          field "plan" plan (
            field "billingStatus" (str "active") (
              field "status" (str "active")
                (field "createdAt" (str now) (field "updatedAt" (str now) end))))))))

unfoldable pub create_project_work : String → Value → Value → Plan → String → Work
unfolding is_active texts grants_of
create_project_work id account_id project plan now = tx_get "_accounts" account_id (
    or_throw λ account.
      if is_active account
      then tx_put "_projects" project (
          or_throw λ put.
            tx_put "_entitlements"
              (obj (
                field "id" (str id) (
                  field "projectId" (str id) (
                    field "grants" (grants_value plan)
                      (field "source" (str "plan") (field "updatedAt" (str now) end))))))
              (or_throw λ granted. finish project))
      else throw account_not_found)

-- What changePlan writes over the project.
unfoldable pub with_plan : Value → Value → String → String → Value
unfolding set_field
with_plan project plan status now = obj (
    set_field "updatedAt" (str now)
      (set_field "billingStatus" (str status) (set_field "plan" plan (spread project))))

abbrev pub entitlement_of : Value → Value → Value → Value → String → Value
entitlement_of id grants source reference now = obj (
    field "id" id (
      field "projectId" id (
        field "grants" grants (
          field "source" source
            (field "externalReference" reference (field "updatedAt" (str now) end))))))

unfoldable pub change_plan_work : Value → Value → Plan → Value → Value → String → Work
unfolding is_active with_plan texts grants_of
change_plan_work id plan grants source reference now = tx_get "_projects" id (
    or_throw λ current.
      if is_active current
      then tx_put "_projects" (with_plan current plan "active" now) (
          or_throw λ put.
            tx_put "_entitlements" (entitlement_of id (grants_value grants) source reference now)
              (or_throw λ granted. finish undefined))
      else throw project_not_found)

module _ (host : Host) where
  unfoldable pub project : Value → Database → Result Value
  unfolding fetch is_active
  project id db = do v ← fetch host "_projects" id db; ok (if is_active v then v else null)

  unfoldable pub entitlements : Value → Database → Result Value
  unfolding fetch spread_items property truthy
  entitlements id db = do
    v ← fetch host "_entitlements" id db
    if truthy v
        then (do items ← spread_items (property "grants" v); ok (arr items))
        else ok (arr nil)

  -- The checks of createProject: the account, the name and the plan.
  unfoldable pub check_project : Value → Value → Value → Database → Result (String × Plan)
  unfolding fetch is_active project_name validate_plan
  check_project account_id name plan db = do
    account ← fetch host "_accounts" account_id db
    require (is_active account) account_not_found
    title ← project_name name
    p ← validate_plan plan
    ok (title, p)

  unfoldable pub create_project : Call → Value → Value → Value → Database → Result Value × Database
  unfolding check_project create_project_work transact
  create_project call account_id name plan_value db =
      let plan = or_default (str "free") plan_value in
      elim (check_project account_id name plan db) [
        | err e ↦ (err e, db)
        | ok (title, p) ↦
            let project = project_of call.uuid account_id title plan call.now in
            transact host call (create_project_work call.uuid account_id project p call.now) db
      ]

  unfoldable pub check_plan : Value → Value → Database → Result Plan
  unfolding validate_plan project truthy
  check_plan id plan db = do
    p ← validate_plan plan
    found ← project id db
    require (truthy found) project_not_found
    ok p

  -- It gives back the project as it is then.
  abbrev pub project_after : Value → Result Value × Database → Result Value × Database
  project_after id (ok v, db) = (project id db, db)
  project_after id (err e, db) = (err e, db)

  unfoldable pub change_plan :
      Call → Value → Value → Value → Value → Database → Result Value × Database
  unfolding check_plan change_plan_work transact project
  change_plan call id plan source reference db = elim (check_plan id plan db) [
    | err e ↦ (err e, db)
    | ok p ↦ project_after id (
        transact host call
          (change_plan_work id plan p (or_default (str "operator") source)
            (or_default null reference) call.now)
          db)
  ]
