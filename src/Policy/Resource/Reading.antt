-- ===== src/Policy/Resource/Reading.antt =====
-- What a resource policy lets through (src/resource-policy.js: decision and read).
use syncio.Base.{
  ◌≡◌, ◌≢◌, refl, sym, ap, ◌∙◌, String, Bool, true, false, not, ◌&&◌, ◌||◌, Bool-cases, inl, inr,
  Option, none, some, List, [], ◌∷◌, ◌++◌, All, Result, ok, >>=-eq-ok, ok-injective, ◌==◌, eq_iff,
  if◌then◌else◌,
}
use syncio.Json.{Value, obj, Fields, end, field}
use syncio.Document.Path.{own}
use syncio.Document.Project.{is_empty}
use syncio.Policy.Conditions.{Order}
use syncio.Policy.Resource.{Request, Rule, Decision, is_allow, applies_to, decide, decision}
use syncio.Policy.Resource.Access.{
  named_by, naming, includes, visible_fields, visible, read_allowed,
}

-- Whether a field is shown: the identity always, and another if no rule denies it and the rules that
-- name fields name it, where there are any.
abbrev pub shows : Option (List String) → List String → String → Bool
shows allowed denied key =
    key == "id"
    || not (includes denied key) && elim allowed [ none ↦ true | some names ↦ includes names key ]

visible_fields-field :
    (allowed : Option (List String)) (denied : List String) (key : String) (v : Value) (fs : Fields)
    → visible_fields allowed denied (field key v fs) ≡ (
        if shows allowed denied key
        then field key v (visible_fields allowed denied fs)
        else visible_fields allowed denied fs)
unfolding visible_fields
visible_fields-field allowed denied key v fs = elim (Bool-cases (key == "id")) [
  | inl id ↦ rw id
  | inr other ↦ elim (Bool-cases (includes denied key)) [
    | inl hidden ↦ rw (other, hidden)
    | inr free ↦ rw (other, free)
  ]
]

-- Reading behind a field that is kept or dropped as the test of its key says.
own-kept :
    (key j : String) (v : Value) (rest : Fields) (o : Option Value) (first shown : Bool)
    → ((j == key) ≡ true → first ≡ shown)
    → own key rest ≡ (if shown then o else none)
    → own key (if first then field j v rest else rest)
      ≡ (if shown then (if j == key then some v else o) else none)
unfolding own
own-kept key j v rest o true true agree e = ap (λ x. if j == key then some v else x) e
own-kept key j v rest o false false agree e = e
own-kept key j v rest o true false agree e = elim (Bool-cases (j == key)) [
  | inl same ↦ let bad = agree same in cc
  | inr other ↦ rw (other, e)
]
own-kept key j v rest o false true agree e = elim (Bool-cases (j == key)) [
  | inl same ↦ let bad = agree same in cc
  | inr other ↦ rw (other, e)
]

nothing : (b : Bool) → ◌≡◌ {A = Option Value} none (if b then none else none)
nothing true = refl
nothing false = refl

own-visible_fields :
    (allowed : Option (List String)) (denied : List String) (key : String) (fs : Fields)
    → own key (visible_fields allowed denied fs)
      ≡ (if shows allowed denied key then own key fs else none)
unfolding own visible_fields
own-visible_fields allowed denied key end = nothing (shows allowed denied key)
own-visible_fields allowed denied key (field j v fs) =
    ap (own key) (visible_fields-field allowed denied j v fs)
    ∙ own-kept key j v (visible_fields allowed denied fs) (own key fs) (shows allowed denied j)
        (shows allowed denied key) (λ same. ap (shows allowed denied) ((eq_iff j key).0 same))
        (own-visible_fields allowed denied key fs)

-- Whether the rules that matched show a field.
abbrev pub may_read : List Rule → String → Bool
may_read matched key =
    let rules = naming (λ (r : Rule). r.read_fields) matched in
    shows (if is_empty rules then none else some (named_by (λ (r : Rule). r.read_fields) rules))
      (named_by (λ (r : Rule). r.deny_read_fields) matched) key

own-restricted :
    (rules : List Rule) (names denied : List String) (key : String) (fs : Fields)
    → own key (
        if is_empty rules && is_empty denied
        then fs
        else visible_fields (if is_empty rules then none else some names) denied fs)
      ≡ (if shows (if is_empty rules then none else some names) denied key
          then own key fs
          else none)
own-restricted [] names [] key fs = elim (Bool-cases (key == "id")) [
  | inl id ↦ rw id
  | inr other ↦ rw other
]
own-restricted [] names (d ∷ denied) key fs = own-visible_fields none (d ∷ denied) key fs
own-restricted (rule ∷ rules) names denied key fs = own-visible_fields (some names) denied key fs

own-visible :
    (matched : List Rule) (key : String) (fs : Fields)
    → own key (visible matched fs) ≡ (if may_read matched key then own key fs else none)
unfolding visible
own-visible matched key fs =
    let rules = naming (λ (r : Rule). r.read_fields) matched in
    own-restricted rules (named_by (λ (r : Rule). r.read_fields) rules)
      (named_by (λ (r : Rule). r.deny_read_fields) matched) key fs

module _ (order : Order) (request : Request) where
  -- That no rule that denies applies.
  abbrev pub NoneDenies : List Rule → Type 0
  NoneDenies rules =
      All (λ (r : Rule). is_allow r ≡ false → applies_to order r request ≢ ok true) rules

  decide-NoneDenies :
      (rules matched : List Rule) (allowed : Bool) (d : Decision)
      → decide order request rules allowed matched ≡ ok d
      → d.allowed ≡ true
      → NoneDenies rules
  unfolding decide
  decide-NoneDenies [] matched allowed d h yes_allowed = tt
  decide-NoneDenies (rule ∷ rules) matched allowed d h yes_allowed =
      let (applies, tested, next) = >>=-eq-ok (applies_to order rule request) _ h in
      by_case (λ m a rest. decide-NoneDenies rules m a d rest yes_allowed) applies (is_allow rule)
        refl tested next
    where
      by_case :
          ((m : List Rule) (a : Bool) → decide order request rules a m ≡ ok d → NoneDenies rules)
          → (applies kind : Bool) → is_allow rule ≡ kind
          → applies_to order rule request ≡ ok applies
          → elim applies as (λ _. Result Decision) [
            | false ↦ decide order request rules allowed matched
            | true ↦ elim kind as (λ _. Result Decision) [
              | false ↦ ok (record { allowed = false; matched = matched ++ rule ∷ [] })
              | true ↦ decide order request rules true (matched ++ rule ∷ [])
            ]
          ]
            ≡ ok d
          → NoneDenies (rule ∷ rules)
      by_case others false kind is_kind tested next =
          (λ denies applies. let bad = sym tested ∙ applies in cc, others matched allowed next)
      by_case others true true is_kind tested next = (
        λ denies applies. let bad : true ≡ false = sym is_kind ∙ denies in cc,
        others (matched ++ rule ∷ []) true next,
      )
      by_case others true false is_kind tested next =
          let same = ap (λ (e : Decision). e.allowed) (ok-injective next) in
          let bad : false ≡ true = same ∙ yes_allowed in cc

-- What it means that a record is shown as `gs`.
pub record IsShown (order : Order) (rules : List Rule) (request : Request) (fs gs : Fields)
    : Type 0 where
  pub decided : Decision
  pub granted : decision order rules (record request { record_value = obj fs }) ≡ ok decided
  pub undenied : NoneDenies order (record request { record_value = obj fs }) rules
  pub fields :
      (key : String) → own key gs ≡ (if may_read decided.matched key then own key fs else none)

-- A record is shown only if no rule that denies applies to the request, and then it has, of the fields of
-- the stored record, exactly those that the rules which matched show.
pub read_allowed-IsShown :
    (order : Order) (rules : List Rule) (request : Request) (fs gs : Fields)
    → read_allowed order rules request fs ≡ ok (obj gs)
    → IsShown order rules request fs gs
unfolding read_allowed decision
read_allowed-IsShown order rules request fs gs h =
    let asked = record request { record_value = obj fs } in
    let (d, granted, next) = >>=-eq-ok (decision order rules asked) _ h in
    elim (Bool-cases d.allowed) [
      | inr refused ↦ let bad = rw refused at next in cc
      | inl allowed ↦
          let shown : obj (visible d.matched fs) ≡ obj gs = ok-injective (rw allowed at next) in
          record {
            decided = d;
            granted = granted;
            undenied = decide-NoneDenies order asked rules [] false d granted allowed;
            fields = λ key. ap (own key) (obj-injective (sym shown)) ∙ own-visible d.matched key fs;
          }
    ]
  where
    obj-injective : {xs ys : Fields} → obj xs ≡ obj ys → xs ≡ ys
    obj-injective h = cc
