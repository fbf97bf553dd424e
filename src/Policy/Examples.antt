-- ===== src/Policy/Examples.antt =====
-- Runs of policies on concrete contexts, and witnesses (src/policy-compiler.js).
use syncio.Base.{
  ◌≡◌, refl, Bool, true, false, none, some, List, [], ◌∷◌, ok, err, type_error, ltb, leb,
}
use syncio.Json.{Value, undefined, null, bool, num, str, arr, obj, nil, cons, Fields, end, field}
use syncio.Document.Path.{own}
use syncio.Policy.Conditions.{Order}
use syncio.Policy.Compiler.{
  Source, Context, normalize_source, evaluate_ir, interpret_policy, query_constraint,
  differential_policy_check,
}
use syncio.Policy.Resource.{Request, Rule, allow, deny, normalize_rule}
use syncio.Policy.Resource.Access.{
  permitted, field_forbidden, read_allowed, write_allowed, query_constraint_of,
}
use syncio.Policy.Resource.Reading.{IsShown, read_allowed-IsShown}
use syncio.Policy.Agreement.{differential_policy_check-agrees}

abbrev number_less : Value → Value → Bool
number_less (num m) (num n) = ltb m n
number_less _ _ = false

abbrev number_at_most : Value → Value → Bool
number_at_most (num m) (num n) = leb m n
number_at_most _ _ = false

abbrev order : Order
order = record { less = number_less; at_most = number_at_most; member = λ k v. none }

-- Owners with the entitlement may read and write what has no lock and a size above one.
abbrev conditions : Fields
conditions =
    field "lock" (obj (field "$exists" (bool false) end))
      (field "meta.size" (obj (field "$gt" (num 1) (field "$ne" (num 7) end))) end)

abbrev policy : Value
policy = obj (
    field "actions" (arr (cons (str "write") (cons (str "read") (cons (str "read") nil)))) (
      field "requiredEntitlements" (arr (cons (str "owner") nil))
        (field "where" (obj conditions) end)))

abbrev source : Source
source = record {
  actions = "read" ∷ "write" ∷ [];
  tenant = null;
  required_entitlements = "owner" ∷ [];
  conditions = conditions;
}

abbrev context : Value → Value → Context
context entitlements size = record {
  action = str "read";
  tenant = undefined;
  entitlements = entitlements;
  after = undefined;
  before = undefined;
  resource = obj (field "meta" (obj (field "size" size end)) end);
}

abbrev owner : Value
owner = arr (cons (str "owner") nil)

abbrev contexts : List Context
contexts =
    context owner (num 2)
    ∷ context owner (num 7)
    ∷ context undefined (num 2)
    ∷ context owner undefined
    ∷ []

normalizes : normalize_source policy ≡ ok source
unfolding normalize_source
normalizes = refl

-- A text of entitlements is searched for a part by the compiled policy, and refused by the interpreter.
evaluates :
    (evaluate_ir order source (context owner (num 2)) ≡ ok true)
    × (evaluate_ir order source (context owner (num 7)) ≡ ok false)
    × (evaluate_ir order source (context (str "coowner") (num 2)) ≡ ok true)
    × (interpret_policy order policy (context (str "coowner") (num 2)) ≡ ok false)
    × (query_constraint order source (context owner undefined) ≡ ok (some conditions))
    × (normalize_source
          (obj (field "where" (obj (field "a" (obj (field "$in" (num 1) end)) end)) end))
        ≡ err type_error)
unfolding evaluate_ir interpret_policy query_constraint normalize_source
evaluates = (refl, refl, refl, refl, refl, refl)

differential_policy_check-agrees_example :
    differential_policy_check order policy contexts ≡ ok (record { agrees = true; cases = 4 })
unfolding own
differential_policy_check-agrees_example =
    differential_policy_check-agrees order policy source contexts normalizes
      ((refl, tt), ((refl, (refl, tt)), tt)) (tt, (tt, (tt, (tt, tt))))

-- Everyone may read the name and the size of a note; nobody may read a locked one.
abbrev open_rule : Rule
open_rule = record {
  collection = str "notes";
  action = str "read";
  effect = allow;
  condition = none;
  where_value = null;
  compiled_where = none;
  read_fields = some ("name" ∷ "size" ∷ []);
  deny_read_fields = some ("size" ∷ []);
  write_fields = some ("name" ∷ []);
}

abbrev lock_rule : Rule
lock_rule = record open_rule {
  effect = deny;
  where_value = obj (field "locked" (bool true) end);
  compiled_where = some (record source {
    actions = "*" ∷ [];
    required_entitlements = [];
    conditions = field "locked" (bool true) end;
  });
}

abbrev note : Bool → Fields
note locked =
    field "id" (str "n")
      (field "name" (str "a") (field "size" (num 3) (field "locked" (bool locked) end)))

abbrev request : Request
request = record {
  collection = str "notes";
  action = str "read";
  record_value = undefined;
  body = undefined;
  resource = undefined;
  user = undefined;
}

abbrev shown : Fields
shown = field "id" (str "n") (field "name" (str "a") end)

reads :
    (read_allowed order (open_rule ∷ lock_rule ∷ []) request (note false) ≡ ok (obj shown))
    × (read_allowed order (open_rule ∷ lock_rule ∷ []) request (note true) ≡ ok null)
    × (write_allowed order
          (λ v. "")
          (open_rule ∷ [])
          request
          (obj (field "$set" (obj (field "name.first" (str "b") end)) end))
        ≡ ok permitted)
    × (write_allowed order
          (λ v. "")
          (open_rule ∷ [])
          request
          (obj (field "$unset" (obj (field "size" (bool true) end)) end))
        ≡ ok (field_forbidden "size"))
    × (query_constraint_of (open_rule ∷ lock_rule ∷ []) request ≡ obj end)
    × (normalize_rule (record {
      collection = undefined;
      action = str "read";
      effect = str "permit";
      condition = none;
      where_value = undefined;
      read_fields = undefined;
      deny_read_fields = undefined;
      write_fields = undefined;
    })
        ≡ err type_error)
unfolding read_allowed write_allowed query_constraint_of normalize_rule
reads = (refl, refl, refl, refl, refl, refl)

read_allowed-IsShown_example : IsShown order (open_rule ∷ lock_rule ∷ []) request (note false) shown
unfolding read_allowed
read_allowed-IsShown_example =
    read_allowed-IsShown order (open_rule ∷ lock_rule ∷ []) request (note false) shown reads.0
