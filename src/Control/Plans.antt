-- ===== src/Control/Plans.antt =====
-- src/control-plane.js: PLAN_ENTITLEMENTS, validatePlan, planEntitlements and supportedPlans.
use syncio.Base.{
  String, Option, none, some, List, [], ◌∷◌, Result, ok, err, type_error, ◌>>=◌, ◌==◌,
  if◌then◌else◌,
}
use syncio.Json.{Value, str, arr, Items, nil, cons}

pub data Plan : Type 0 where
  free pro scale business enterprise : Plan

abbrev scale_entitlements : List String
scale_entitlements =
    "database" ∷ "realtime:basic" ∷ "realtime:extended" ∷ "backups" ∷ "pitr" ∷ "higher-limits"
    ∷ "audit" ∷ "priority-support" ∷ "multi-region" ∷ "replicas" ∷ []

-- PLAN_ENTITLEMENTS
unfoldable pub grants_of : Plan → List String
grants_of free = "database" ∷ "realtime:basic" ∷ []
grants_of pro =
    "database" ∷ "realtime:basic" ∷ "realtime:extended" ∷ "backups" ∷ "pitr:basic" ∷ "higher-limits"
    ∷ []
grants_of scale = scale_entitlements
grants_of business = scale_entitlements
grants_of enterprise = "*" ∷ []

unfoldable pub plan_named : String → Option Plan
plan_named s =
    if s == "free"
    then some free
    else if s == "pro"
    then some pro
    else if s == "scale"
    then some scale
    else if s == "business"
    then some business
    else if s == "enterprise"
    then some enterprise
    else none

-- The property name that a value stands for, where it may be a plan's: an array of one item stands for
-- what its item does, and no other value but a text gives the name of a plan.
unfoldable pub key_text : Value → Option String
key_text (str s) = some s
key_text (arr (cons x nil)) = key_text x
key_text _ = none

unfoldable pub validate_plan : Value → Result Plan
validate_plan plan = elim (key_text plan) [
  | none ↦ err type_error
  | some s ↦ elim (plan_named s) [ none ↦ err type_error | some p ↦ ok p ]
]

-- An array of texts.
unfoldable pub texts : List String → Items
texts [] = nil
texts (s ∷ ss) = cons (str s) (texts ss)

unfoldable pub plan_entitlements : Value → Result Value
unfolding grants_of texts validate_plan
plan_entitlements plan = do p ← validate_plan plan; ok (arr (texts (grants_of p)))

unfoldable pub supported_plans : List String
supported_plans = "free" ∷ "pro" ∷ "scale" ∷ "business" ∷ "enterprise" ∷ []
