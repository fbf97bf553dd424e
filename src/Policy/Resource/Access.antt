-- ===== src/Policy/Resource/Access.antt =====
-- src/resource-policy.js: read, write and queryConstraint, and the fields that they look at.
use syncio.Base.{
  String, Bool, true, false, ◌&&◌, ◌||◌, Option, none, some, List, [], ◌∷◌, ◌++◌, any, select,
  Result, ok, ◌>>=◌, ◌==◌, if◌then◌else◌,
}
use syncio.Json.{Value, null, arr, obj, cons, Fields, end, field}
use syncio.Database.Transaction.{unique}
use syncio.Document.Path.{split_path}
use syncio.Document.Update.{items_of}
use syncio.Document.Project.{is_empty}
use syncio.Policy.Conditions.{Order}
use syncio.Policy.Resource.{Request, Rule, is_allow, matches_scope, decision}

-- The fields that some rules name, of those that allow and name any.
abbrev pub fields_of : Option (List String) → List String
fields_of none = []
fields_of (some names) = names

abbrev pub is_named : Option (List String) → Bool
is_named none = false
is_named (some names) = true

unfoldable pub named_by : (Rule → Option (List String)) → List Rule → List String
named_by names [] = []
named_by names (rule ∷ rules) = fields_of (names rule) ++ named_by names rules

abbrev pub naming : (Rule → Option (List String)) → List Rule → List Rule
naming names rules = select (λ rule. is_allow rule && is_named (names rule)) rules

abbrev pub includes : List String → String → Bool
includes names key = any (λ name. name == key) names

-- The fields of a record that may be read: `allowed` is `none` where no rule names any.
unfoldable pub visible_fields : Option (List String) → List String → Fields → Fields
visible_fields allowed denied end = end
visible_fields allowed denied (field key v fs) =
    let rest = visible_fields allowed denied fs in
    if key == "id"
    then field key v rest
    else if includes denied key
    then rest
    else if elim allowed [ none ↦ true | some names ↦ includes names key ]
    then field key v rest
    else rest

unfoldable pub visible : List Rule → Fields → Fields
unfolding named_by visible_fields
visible matched fs =
    let rules = naming (λ (r : Rule). r.read_fields) matched in
    let denied = named_by (λ (r : Rule). r.deny_read_fields) matched in
    if is_empty rules && is_empty denied
    then fs
    else visible_fields
        (if is_empty rules then none else some (named_by (λ (r : Rule). r.read_fields) rules))
        denied fs

unfoldable pub read_allowed : Order → List Rule → Request → Fields → Result Value
unfolding decision visible
read_allowed order rules request fs = do
  d ← decision order rules (record request { record_value = obj fs })
  ok (if d.allowed then obj (visible d.matched fs) else null)

-- String(value).split('.')[0], of a text.
abbrev pub first_part : List String → String
first_part [] = ""
first_part (part ∷ parts) = part

unfoldable pub top_field : String → String
unfolding split_path
top_field path = first_part (split_path path)

abbrev update_operators : List String
update_operators =
    "$set" ∷ "$unset" ∷ "$inc" ∷ "$mul" ∷ "$min" ∷ "$max" ∷ "$push" ∷ "$addToSet" ∷ "$pull"
    ∷ "$rename" ∷ []

abbrev pub is_update : String → Bool
is_update key = includes update_operators key

unfoldable pub has_update : Fields → Bool
has_update end = false
has_update (field key v fs) = is_update key || has_update fs

unfoldable pub top_fields : Fields → List String
unfolding top_field
top_fields end = []
top_fields (field key v fs) = top_field key ∷ top_fields fs

-- `text` is String(value) of a value.
unfoldable pub payload_fields : (Value → String) → String → Fields → List String
unfolding top_field
payload_fields text operator end = []
payload_fields text operator (field key v fs) =
    let rest = payload_fields text operator fs in
    if operator == "$rename"
    then top_field key ∷ top_field (text v) ∷ rest
    else top_field key ∷ rest

unfoldable pub update_fields : (Value → String) → Fields → List String
unfolding payload_fields
update_fields text end = []
update_fields text (field operator (obj payload) fs) =
    let rest = update_fields text fs in
    if is_update operator then payload_fields text operator payload ++ rest else rest
update_fields text (field operator _ fs) = update_fields text fs

unfoldable pub mutation_fields : (Value → String) → Value → List String
unfolding has_update update_fields top_fields unique
mutation_fields text (obj fs) =
    if has_update fs then unique (update_fields text fs) else top_fields fs
mutation_fields text _ = []

pub data Verdict : Type 0 where
  permitted forbidden : Verdict
  field_forbidden : String → Verdict

unfoldable pub check_fields : List String → List String → Verdict
check_fields allowed [] = permitted
check_fields allowed (name ∷ names) =
    let rest = check_fields allowed names in
    if name == "id" || includes allowed name then rest else field_forbidden name

unfoldable pub write_verdict : (Value → String) → List Rule → Value → Verdict
unfolding named_by check_fields mutation_fields
write_verdict text matched body =
    let rules = naming (λ (r : Rule). r.write_fields) matched in
    if is_empty rules
    then permitted
    else check_fields (named_by (λ (r : Rule). r.write_fields) rules) (mutation_fields text body)

unfoldable pub write_allowed :
    Order → (Value → String) → List Rule → Request → Value → Result Verdict
unfolding decision write_verdict
write_allowed order text rules request body = do
  d ← decision order rules (record request { body = body })
  ok (if d.allowed then write_verdict text d.matched body else forbidden)

-- Object.keys(where).length, of a value that is truthy.
abbrev pub has_keys : Value → Bool
has_keys (obj (field k v fs)) = true
has_keys (arr (cons x xs)) = true
has_keys _ = false

-- safeQueryConstraint behind its guards: `none` where a rule has no conditions.
unfoldable pub constraints_of : List Rule → Option (List Value)
constraints_of [] = some []
constraints_of (rule ∷ rules) = elim (has_keys rule.where_value) [
  | false ↦ none
  | true ↦ elim (constraints_of rules) [ none ↦ none | some vs ↦ some (rule.where_value ∷ vs) ]
]

abbrev pub join_constraints : Option (List Value) → Value
join_constraints none = obj end
join_constraints (some []) = null
join_constraints (some (v ∷ [])) = v
join_constraints (some vs) = obj (field "$or" (arr (items_of vs)) end)

abbrev pub is_tested : Rule → Bool
is_tested rule = elim rule.condition [ none ↦ false | some test ↦ true ]

unfoldable pub query_constraint_of : List Rule → Request → Value
unfolding matches_scope constraints_of items_of
query_constraint_of rules request =
    let candidates = select (λ rule. is_allow rule && matches_scope rule request) rules in
    if is_empty candidates || any is_tested candidates
    then null
    else join_constraints (constraints_of candidates)
