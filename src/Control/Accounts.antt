-- ===== src/Control/Accounts.antt =====
-- src/control-plane.js: createAccount, deleteAccount and exportAccount.
pub mod Unique
use Prim.Native.String.{◌++◌}
use syncio.Base.{
  ℕ, ◌-◌, Option, none, some, length, drop, eqb, String, Bool, true, false, not, ◌&&◌, ◌||◌, List,
  [], ◌∷◌, any, select, Result, ok, err, type_error, account_email_exists, account_not_found, ◌>>=◌,
  ◌>>◌, require, ◌==◌, if◌then◌else◌,
}
use syncio.Json.{
  Value, undefined, null, bool, str, arr, obj, Items, nil, cons, Fields, end, field, property,
  set_field, truthy, codes,
}
use syncio.Document.Runtime.{strict_equal}
use syncio.Database.State.{Database}
use syncio.Database.Collection.{all_records}
use syncio.Database.Transaction.{Work, finish, throw, tx_get, tx_put, tx_remove, tx_all}
use syncio.Control.Texts.{trim, is_email}
use syncio.Document.Update.{items_of}
use syncio.Control.Projects.{entitlements}
use syncio.Control.Records.{
  Host, Call, or_throw, fetch, is_text, spread, spread_items, text_of, transact, after, or_default,
}

-- `text.endsWith(end)`
unfoldable pub same_codes : List ℕ → List ℕ → Bool
same_codes [] [] = true
same_codes (c ∷ cs) (d ∷ ds) = eqb c d && same_codes cs ds
same_codes _ _ = false

unfoldable pub ends_with : List ℕ → List ℕ → Bool
unfolding same_codes
ends_with tail cs = same_codes (drop (length cs - length tail) cs) tail

-- `item.email === email && item.status !== 'deleted'`
unfoldable pub holds_email : String → Value → Bool
unfolding property
holds_email email item =
    is_text email (property "email" item) && not (is_text "deleted" (property "status" item))

unfoldable pub account_of : String → String → Value → String → Value
account_of id email name now = obj (
    field "id" (str id) (
      field "email" (str email)
        (field "name" name (field "status" (str "active") (field "createdAt" (str now) end)))))

-- The address is linked to the account last.
unfoldable pub link_account_work : String → Value → Work
unfolding property
link_account_work key account =
    tx_put "_account_email_keys"
      (obj (field "id" (str key) (field "accountId" (property "id" account) end)))
      (or_throw λ linked. finish undefined)

unfoldable pub put_account_work : String → Value → Work
unfolding link_account_work
put_account_work key account =
    tx_put "_accounts" account (or_throw λ put. link_account_work key account)

unfoldable pub search_account_work : String → String → Value → Work
unfolding holds_email put_account_work
search_account_work key email account = tx_all "_accounts" (
    or_throw λ items.
      if any (holds_email email) items
      then throw account_email_exists
      else put_account_work key account)

unfoldable pub create_account_work : String → String → Value → Work
unfolding truthy search_account_work
create_account_work key email account = tx_get "_account_email_keys" (str key) (
    or_throw λ found.
      if truthy found then throw account_email_exists else search_account_work key email account)

module _ (host : Host) where
  -- `email.trim().toLowerCase()`
  unfoldable pub normal_email : String → String
  unfolding trim
  normal_email email = host.lower_case (trim email)

  unfoldable pub create_account : Call → Value → Value → Database → Result Value × Database
  unfolding is_email normal_email account_of create_account_work transact
  create_account call (str email) name db =
      let normalized = normal_email email in
      let account = account_of call.uuid normalized (or_default null name) call.now in
      let run =
        transact host call (create_account_work (host.hash_email normalized) normalized account)
          db in
      if is_email (codes email) then after (λ v. account) run else (err type_error, db)
  create_account call _ name db = (err type_error, db)

  -- The projects of an account.
  unfoldable pub projects_of : Value → Database → List Value
  unfolding property strict_equal all_records
  projects_of account_id db =
      select (λ project. strict_equal (property "accountId" project) account_id)
        (all_records "_projects" db)

  -- `account.email && !account.email.endsWith('@invalid.local') ? hashEmail(account.email) : null`
  unfoldable pub email_key : Value → Result (Option String)
  unfolding ends_with truthy
  email_key (str email) = ok (
      if email == "" || ends_with (codes "@invalid.local") (codes email)
      then none
      else some (host.hash_email email))
  email_key v = if truthy v then err type_error else ok none

  -- What is left of an account.
  unfoldable pub deleted_account : Value → String → String → Value
  unfolding set_field
  deleted_account account id now = obj (
      set_field "deletedAt" (str now) (
        set_field "name" null (
          set_field "email" (str ("deleted-" ++ (id ++ "@invalid.local")))
            (set_field "status" (str "deleted") (spread account)))))

  unfoldable pub deleted_project : Value → String → Value
  unfolding set_field
  deleted_project project now = obj (
      set_field "updatedAt" (str now)
        (set_field "deletedAt" (str now) (set_field "status" (str "deleted") (spread project))))

  unfoldable pub delete_projects_work : List Value → String → Work
  unfolding deleted_project property
  delete_projects_work [] now = finish (bool true)
  delete_projects_work (project ∷ projects) now =
      let rest = delete_projects_work projects now in
      tx_put "_projects" (deleted_project project now) (
        or_throw
          λ put. tx_remove "_entitlements" (property "id" project) (or_throw λ removed. rest))

  unfoldable pub delete_account_work : Value → String → Option String → List Value → String → Work
  unfolding deleted_account delete_projects_work
  delete_account_work account id key projects now =
      let rest = delete_projects_work projects now in
      tx_put "_accounts" (deleted_account account id now) (
        or_throw λ put. elim key [
          | none ↦ rest
          | some k ↦ tx_remove "_account_email_keys" (str k) (or_throw λ removed. rest)
        ])

  -- Reading the account and what its deletion needs of it; `none` where there is no account.
  unfoldable pub check_deletion :
      Value → Database → Result (Option (Value × String × Option String))
  unfolding fetch truthy email_key text_of property
  check_deletion account_id db = do
    account ← fetch host "_accounts" account_id db
    if truthy account
        then (do
          key ← email_key (property "email" account)
          id ← text_of host (property "id" account)
          ok (some (account, id, key)))
        else ok none

  unfoldable pub delete_account : Call → Value → Database → Result Value × Database
  unfolding check_deletion projects_of delete_account_work transact
  delete_account call account_id db = elim (check_deletion account_id db) [
    | err e ↦ (err e, db)
    | ok none ↦ (ok (bool false), db)
    | ok (some (account, id, key)) ↦
        transact host call (delete_account_work account id key (projects_of account_id db) call.now)
          db
  ]

  -- Object.fromEntries of the entitlements of some projects.
  unfoldable pub entitlements_of : List Value → Fields → Database → Result Fields
  unfolding entitlements text_of set_field property
  entitlements_of [] fs db = ok fs
  entitlements_of (project ∷ projects) fs db = do
    grants ← entitlements host (property "id" project) db
    key ← text_of host (property "id" project)
    entitlements_of projects (set_field key grants fs) db

  -- The records of a collection that belong to some projects.
  unfoldable pub records_of : String → List Value → Database → Value
  unfolding property strict_equal all_records items_of
  records_of name projects db = arr (
      items_of (
        select
          (λ item.
            any (λ project. strict_equal (property "id" project) (property "projectId" item))
              projects)
          (all_records name db)))

  unfoldable pub export_account : Call → Value → Database → Result Value
  unfolding fetch truthy projects_of entitlements_of records_of
  export_account call account_id db = do
    account ← fetch host "_accounts" account_id db
    require (truthy account) account_not_found
    let projects = projects_of account_id db
    grants ← entitlements_of projects end db
    ok (
        obj (
          field "exportedAt" (str call.now) (
            field "account" account (
              field "projects" (arr (items_of projects)) (
                field "entitlements" (obj grants) (
                  field "billingEvents" (records_of "_billing_events" projects db) (
                    field "invoices" (records_of "_invoices" projects db)
                      (field "usageEvents" (records_of "_usage_events" projects db) end))))))))
