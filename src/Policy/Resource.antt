-- ===== src/Policy/Resource.antt =====
-- src/resource-policy.js: rules on collections, actions and fields. `when` is the callback of a rule.
pub mod Access
pub mod Reading
use syncio.Base.{
  String, Bool, true, false, not, ◌&&◌, ◌||◌, Option, none, some, List, [], ◌∷◌, ◌++◌, all, any,
  select, Result, ok, err, type_error, ◌>>=◌, ◌>>◌, require, leb, eqb, ◌==◌, ℕ, if◌then◌else◌, map,
}
use syncio.Json.{
  Value, undefined, null, bool, str, arr, obj, exotic, Items, nil, cons, Fields, end, field, truthy,
  property, codes,
}
use syncio.Database.Transaction.{unique}
use syncio.Document.Runtime.{strict_equal}
use syncio.Document.Path.{split_path}
use syncio.Document.Update.{items_of}
use syncio.Document.Project.{is_empty}
use syncio.Control.Records.{is_text}
use syncio.Policy.Conditions.{Order}
use syncio.Policy.Compiler.{Source, Context, normalize_source, evaluate_ir, or_next}

pub data RuleEffect : Type 0 where
  allow deny : RuleEffect

-- What a request is about.
pub record Request : Type 0 where
  pub collection : Value
  pub action : Value
  pub record_value : Value
  pub body : Value
  pub resource : Value
  pub user : Value

-- A rule as it is given; `when` may throw.
pub record RawRule : Type 0 where
  pub collection : Value
  pub action : Value
  pub effect : Value
  pub condition : Option (Request → Result Bool)
  pub where_value : Value
  pub read_fields : Value
  pub deny_read_fields : Value
  pub write_fields : Value

pub record Rule : Type 0 where
  pub collection : Value
  pub action : Value
  pub effect : RuleEffect
  pub condition : Option (Request → Result Bool)
  pub where_value : Value
  pub compiled_where : Option Source
  pub read_fields : Option (List String)
  pub deny_read_fields : Option (List String)
  pub write_fields : Option (List String)

-- /^[A-Za-z0-9_-]+$/
abbrev field_char : ℕ → Bool
field_char c =
    leb b'A' c && leb c b'Z'
    || leb b'a' c && leb c b'z'
    || leb b'0' c && leb c b'9'
    || eqb c b'_'
    || eqb c b'-'

unfoldable pub field_names : Items → Result (List String)
field_names nil = ok []
field_names (cons (str s) xs) = do
  rest ← field_names xs
  if not (s == "") && all field_char (codes s) then ok (s ∷ rest) else err type_error
field_names (cons _ xs) = err type_error

unfoldable pub normalize_fields : Value → Result (Option (List String))
unfolding field_names unique
normalize_fields undefined = ok none
normalize_fields (arr xs) = do names ← field_names xs; ok (some (unique names))
normalize_fields _ = err type_error

unfoldable pub rule_effect : Value → Result RuleEffect
rule_effect undefined = ok deny
rule_effect null = ok deny
rule_effect (str s) =
    if s == "allow" then ok allow else if s == "deny" then ok deny else err type_error
rule_effect _ = err type_error

unfoldable pub compile_where : Value → Value → Result (Option Source)
unfolding normalize_source truthy
compile_where action v =
    if truthy v
    then (do
      source ←
          normalize_source (
            obj (field "actions" (arr (cons (or_next action (str "*")) nil)) (field "where" v end)))
      ok (some source))
    else ok none

unfoldable pub normalize_rule : RawRule → Result Rule
unfolding rule_effect compile_where normalize_fields
normalize_rule rule = do
  effect ← rule_effect rule.effect
  compiled ← compile_where rule.action rule.where_value
  read ← normalize_fields rule.read_fields
  deny_read ← normalize_fields rule.deny_read_fields
  write ← normalize_fields rule.write_fields
  ok (record {
    collection = rule.collection;
    action = rule.action;
    effect = effect;
    condition = rule.condition;
    where_value = or_next rule.where_value null;
    compiled_where = compiled;
    read_fields = read;
    deny_read_fields = deny_read;
    write_fields = write;
  })

abbrev pub is_allow : Rule → Bool
is_allow rule = elim rule.effect [ allow ↦ true | deny ↦ false ]

-- A name of a rule that is absent or `*` stands for every one.
abbrev pub names_all : Value → Bool
names_all v = not (truthy v) || is_text "*" v

unfoldable pub matches_scope : Rule → Request → Bool
unfolding strict_equal truthy
matches_scope rule request =
    (names_all rule.collection
      || strict_equal rule.collection request.collection
      || is_text "*" request.collection && not (is_allow rule))
    && (names_all rule.action || strict_equal rule.action request.action)

-- A callback that throws does not hold.
unfoldable pub condition_holds : Option (Request → Result Bool) → Request → Bool
condition_holds none request = true
condition_holds (some test) request = elim (test request) [ ok b ↦ b | err e ↦ false ]

pub record Decision : Type 0 where
  pub allowed : Bool
  pub matched : List Rule

module _ (order : Order) where
  unfoldable pub where_holds : Option Source → Request → Result Bool
  unfolding evaluate_ir property
  where_holds none request = ok true
  where_holds (some source) request = evaluate_ir order source (record {
    action = request.action;
    tenant = undefined;
    entitlements = or_next (property "entitlements" request.user) (arr nil);
    after = undefined;
    before = undefined;
    resource =
        or_next request.record_value (or_next request.body (or_next request.resource (obj end)));
  })

  unfoldable pub applies_to : Rule → Request → Result Bool
  unfolding matches_scope condition_holds where_holds
  applies_to rule request =
      if matches_scope rule request && condition_holds rule.condition request
      then where_holds rule.compiled_where request
      else ok false

  -- The loop of `decision`: what has been allowed and matched so far.
  unfoldable pub decide : Request → List Rule → Bool → List Rule → Result Decision
  unfolding applies_to
  decide request [] allowed matched = ok (record { allowed = allowed; matched = matched })
  decide request (rule ∷ rules) allowed matched = do
    applies ← applies_to rule request
    elim applies [
      | false ↦ decide request rules allowed matched
      | true ↦ elim (is_allow rule) [
        | false ↦ ok (record { allowed = false; matched = matched ++ rule ∷ [] })
        | true ↦ decide request rules true (matched ++ rule ∷ [])
      ]
    ]

  unfoldable pub decision : List Rule → Request → Result Decision
  unfolding decide
  decision rules request = decide request rules false []

  unfoldable pub authorize : List Rule → Request → Result Bool
  unfolding decision
  authorize rules request = do d ← decision rules request; ok d.allowed
