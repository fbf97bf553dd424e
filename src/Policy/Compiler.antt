-- ===== src/Policy/Compiler.antt =====
-- src/policy-compiler.js: compilePolicy, interpretPolicy and differentialPolicyCheck. The version of a
-- policy, a digest of its source, is left out.
use syncio.Base.{
  ℕ, suc, String, Bool, true, false, not, ◌&&◌, ◌||◌, Option, none, some, List, [], ◌∷◌, any, eqb,
  leb, Result, ok, err, type_error, ◌>>=◌, ◌>>◌, require, ◌==◌, if◌then◌else◌,
}
use syncio.Json.{
  Value, undefined, null, str, arr, obj, exotic, Items, nil, cons, Fields, end, field, codes,
  utf16_length,
}
use syncio.Database.Transaction.{unique, sort}
use syncio.Document.Runtime.{strict_equal}
use syncio.Document.Path.{own}
use syncio.Document.Match.{is_array}
use syncio.Document.Project.{is_empty}
use syncio.Control.Records.{is_text, or_null}
use syncio.Policy.Conditions.{Order, same_truth, evaluate_where, interpret_where}

-- A policy, checked and put in order.
pub record Source : Type 0 where
  pub actions : List String
  pub tenant : Value
  pub required_entitlements : List String
  pub conditions : Fields

pub record Context : Type 0 where
  pub action : Value
  pub tenant : Value
  pub entitlements : Value
  pub after : Value
  pub before : Value
  pub resource : Value

-- An iterable of texts that are not empty.
unfoldable pub texts_of : Items → Result (List String)
texts_of nil = ok []
texts_of (cons (str s) xs) = do
  rest ← texts_of xs
  if s == "" then err type_error else ok (s ∷ rest)
texts_of (cons _ xs) = err type_error

abbrev pub letters_of : String → List String
letters_of String.[] = []
letters_of (String.◌∷◌ c s) = String.◌∷◌ c String.[] ∷ letters_of s

-- `[...new Set(value ?? absent)].sort()`, of texts.
unfoldable pub text_set : List String → Value → Result (List String)
unfolding texts_of unique sort
text_set absent undefined = ok absent
text_set absent null = ok absent
text_set absent (arr xs) = do texts ← texts_of xs; ok (sort (unique texts))
text_set absent (str s) = ok (sort (unique (letters_of s)))
text_set absent _ = err type_error

abbrev policy_operators : List String
policy_operators = "$eq" ∷ "$ne" ∷ "$in" ∷ "$nin" ∷ "$exists" ∷ "$gt" ∷ "$gte" ∷ "$lt" ∷ "$lte" ∷ []

unfoldable pub known_operators : Fields → Bool
known_operators end = true
known_operators (field key v fs) =
    any (λ operator. key == operator) policy_operators && known_operators fs

-- What stands under a key is an array, if anything does.
abbrev pub array_or_absent : Option Value → Bool
array_or_absent none = true
array_or_absent (some v) = is_array v

unfoldable pub valid_condition : Value → Bool
unfolding known_operators own
valid_condition (obj fs) =
    known_operators fs && array_or_absent (own "$in" fs) && array_or_absent (own "$nin" fs)
valid_condition _ = true

unfoldable pub valid_conditions : Fields → Bool
unfolding valid_condition
valid_conditions end = true
valid_conditions (field key condition fs) =
    not (key == "")
    && leb (utf16_length (codes key)) 256
    && valid_condition condition
    && valid_conditions fs

unfoldable pub validate_where : Value → Result Fields
unfolding valid_conditions
validate_where undefined = ok end
validate_where null = ok end
validate_where (obj fs) = if valid_conditions fs then ok fs else err type_error
validate_where (exotic true) = ok end
validate_where _ = err type_error

abbrev pub own_value : Option Value → Value
own_value none = undefined
own_value (some v) = v

unfoldable pub normalize_source : Value → Result Source
unfolding text_set validate_where own
normalize_source (obj policy) = do
  actions ← text_set ("*" ∷ []) (own_value (own "actions" policy))
  require (not (is_empty actions)) type_error
  required ← text_set [] (own_value (own "requiredEntitlements" policy))
  conditions ← validate_where (own_value (own "where" policy))
  ok (record {
    actions = actions;
    tenant = or_null (own_value (own "tenant" policy));
    required_entitlements = required;
    conditions = conditions;
  })
normalize_source _ = err type_error

-- `!actions.includes('*') && !actions.includes(context.action)`, and the comparison of the tenant.
unfoldable pub action_allowed : Source → Value → Bool
action_allowed source action =
    any (λ a. a == "*") source.actions || any (λ a. is_text a action) source.actions

abbrev pub is_null : Value → Bool
is_null null = true
is_null _ = false

unfoldable pub tenant_allowed : Source → Value → Bool
unfolding strict_equal
tenant_allowed source tenant = is_null source.tenant || strict_equal tenant source.tenant

-- `context.after ?? context.before ?? context.resource ?? {}`
abbrev pub or_next : Value → Value → Value
or_next undefined v = v
or_next null v = v
or_next u v = u

abbrev pub document_of : Context → Value
document_of context =
    or_next context.after (or_next context.before (or_next context.resource (obj end)))

-- `includes` of an array, and of a text.
abbrev pub includes_text : String → Items → Bool
includes_text s nil = false
includes_text s (cons v xs) = is_text s v || includes_text s xs

unfoldable pub is_prefix : List ℕ → List ℕ → Bool
is_prefix [] cs = true
is_prefix (d ∷ ds) [] = false
is_prefix (d ∷ ds) (c ∷ cs) = eqb d c && is_prefix ds cs

unfoldable pub is_part : List ℕ → List ℕ → Bool
unfolding is_prefix
is_part ds [] = is_prefix ds []
is_part ds (c ∷ cs) = is_prefix ds (c ∷ cs) || is_part ds cs

-- `context.entitlements?.includes(entitlement)`
unfoldable pub includes_entitlement : Value → String → Result Bool
unfolding is_part
includes_entitlement undefined s = ok false
includes_entitlement null s = ok false
includes_entitlement (arr xs) s = ok (includes_text s xs)
includes_entitlement (str t) s = ok (is_part (codes s) (codes t))
includes_entitlement _ s = err type_error

unfoldable pub includes_all : Value → List String → Result Bool
unfolding includes_entitlement
includes_all entitlements [] = ok true
includes_all entitlements (s ∷ ss) = do
  has ← includes_entitlement entitlements s
  elim has [ false ↦ ok false | true ↦ includes_all entitlements ss ]

-- The interpreter asks for an array.
unfoldable pub interpret_entitlements : Value → List String → Bool
interpret_entitlements entitlements [] = true
interpret_entitlements (arr xs) (s ∷ ss) = includes_text s xs && interpret_entitlements (arr xs) ss
interpret_entitlements _ (s ∷ ss) = false

pub record Check : Type 0 where
  pub agrees : Bool
  pub cases : ℕ

module _ (order : Order) where
  -- evaluateIr
  unfoldable pub evaluate_ir : Source → Context → Result Bool
  unfolding action_allowed tenant_allowed includes_all evaluate_where
  evaluate_ir source context =
      if not (action_allowed source context.action)
      then ok false
      else if not (tenant_allowed source context.tenant)
      then ok false
      else (do
        entitled ← includes_all context.entitlements source.required_entitlements
        ok (entitled && evaluate_where order source.conditions (document_of context)))

  unfoldable pub interpret_source : Source → Context → Bool
  unfolding action_allowed tenant_allowed interpret_entitlements interpret_where
  interpret_source source context =
      action_allowed source context.action
      && tenant_allowed source context.tenant
      && interpret_entitlements context.entitlements source.required_entitlements
      && interpret_where order source.conditions (document_of context)

  unfoldable pub interpret_policy : Value → Context → Result Bool
  unfolding normalize_source interpret_source
  interpret_policy policy context = do
    source ← normalize_source policy
    ok (interpret_source source context)

  -- queryConstraint; `none` is null.
  unfoldable pub query_constraint : Source → Context → Result (Option Fields)
  unfolding tenant_allowed includes_all
  query_constraint source context =
      if not (is_text "read" context.action || is_text "*" context.action)
      then ok none
      else if not (any (λ a. a == "*") source.actions || any (λ a. a == "read") source.actions)
      then ok none
      else if not (tenant_allowed source context.tenant)
      then ok none
      else (do
        entitled ← includes_all context.entitlements source.required_entitlements
        ok (if entitled then some source.conditions else none))

  -- The loop of differentialPolicyCheck: the cases that agree, up to the first that does not.
  unfoldable pub compare_contexts : Source → List Context → ℕ → Result Check
  unfolding evaluate_ir interpret_source
  compare_contexts source [] n = ok (record { agrees = true; cases = n })
  compare_contexts source (context ∷ contexts) n = do
    optimized ← evaluate_ir source context
    elim (same_truth optimized (interpret_source source context)) [
      | true ↦ compare_contexts source contexts (suc n)
      | false ↦ ok (record { agrees = false; cases = n })
    ]

  unfoldable pub differential_policy_check : Value → List Context → Result Check
  unfolding normalize_source compare_contexts
  differential_policy_check policy contexts = do
    source ← normalize_source policy
    compare_contexts source contexts 0
