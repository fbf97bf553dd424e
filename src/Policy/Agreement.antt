-- ===== src/Policy/Agreement.antt =====
-- The compiled evaluation of a policy is its interpretation (src/policy-compiler.js).
use syncio.Base.{
  ◌≡◌, refl, ap, ◌∙◌, String, Bool, true, false, Bool-cases, inl, inr, List, [], ◌∷◌, arith, ok,
  All, length, Result, ◌>>=◌, ℕ, suc, ◌+◌,
}
use syncio.Json.{Value, undefined, null, arr}
use syncio.Policy.Conditions.{Order, same_truth}
use syncio.Policy.Compiler.{
  Source, Context, Check, action_allowed, tenant_allowed, document_of, includes_text, includes_all,
  interpret_entitlements, evaluate_ir, interpret_source, compare_contexts,
  differential_policy_check, normalize_source,
}
use syncio.Policy.Operators.{AllDistinct, where-agree}

-- What differs between the two evaluations is a list of entitlements that is no array.
abbrev pub IsList : Value → Type 0
IsList (arr xs) = Unit
IsList undefined = Unit
IsList null = Unit
IsList _ = ⊥

entitlements-agree :
    (entitlements : Value) (required : List String)
    → IsList entitlements
    → includes_all entitlements required ≡ ok (interpret_entitlements entitlements required)
unfolding includes_all interpret_entitlements
entitlements-agree undefined [] list = refl
entitlements-agree undefined (s ∷ ss) list = refl
entitlements-agree null [] list = refl
entitlements-agree null (s ∷ ss) list = refl
entitlements-agree (arr xs) [] list = refl
entitlements-agree (arr xs) (s ∷ ss) list = elim (Bool-cases (includes_text s xs)) [
  | inl has ↦ rw has (entitlements-agree (arr xs) ss list)
  | inr lacks ↦ rw lacks
]
entitlements-agree _ _ list = absurd list

same_truth_self : (b : Bool) → same_truth b b ≡ true
same_truth_self true = refl
same_truth_self false = refl

add_nothing : (n : ℕ) → n ≡ n + 0
add_nothing n = omega arith

nothing_add : (l : ℕ) → 0 + l ≡ l
nothing_add l = omega arith

suc_add : (n l : ℕ) → suc n + l ≡ n + suc l
suc_add n l = omega arith

module _ (order : Order) (source : Source) (distinct : AllDistinct source.conditions) where
  evaluate_ir-interpret_source :
      (context : Context)
      → IsList context.entitlements
      → evaluate_ir order source context ≡ ok (interpret_source order source context)
  unfolding evaluate_ir interpret_source
  evaluate_ir-interpret_source context list =
      let entitled = entitlements-agree context.entitlements source.required_entitlements list in
      let held = where-agree order source.conditions (document_of context) distinct in
      elim (Bool-cases (action_allowed source context.action)) [
        | inr other ↦ rw other
        | inl action ↦ elim (Bool-cases (tenant_allowed source context.tenant)) [
          | inr foreign ↦ rw (action, foreign)
          | inl tenant ↦ rw (action, tenant, entitled, held)
        ]
      ]

  compare_contexts-agree :
      (contexts : List Context) (n : ℕ)
      → All (λ (c : Context). IsList c.entitlements) contexts
      → compare_contexts order source contexts n
        ≡ ok (record { agrees = true; cases = n + length contexts })
  unfolding compare_contexts
  compare_contexts-agree [] n lists =
      ap (λ c. ok (record { agrees = true; cases = c })) (add_nothing n)
  compare_contexts-agree (context ∷ contexts) n (list, lists) =
      let reference = interpret_source order source context in
      let next = λ (agreed : Bool). elim agreed as (λ _. Result Check) [
        | true ↦ compare_contexts order source contexts (suc n)
        | false ↦ ok (record { agrees = false; cases = n })
      ] in
      ap (λ (r : Result Bool). r >>= λ optimized. next (same_truth optimized reference))
        (evaluate_ir-interpret_source context list)
      ∙ ap next (same_truth_self reference)
      ∙ compare_contexts-agree contexts (suc n) lists
      ∙ ap (λ c. ok (record { agrees = true; cases = c })) (suc_add n (length contexts))

-- A policy that is accepted is evaluated as it is interpreted in every context whose entitlements are an
-- array or absent, so comparing the two over any list of such contexts finds that they agree in all of
-- them, if no object of the policy's conditions holds a key twice.
pub differential_policy_check-agrees :
    (order : Order) (policy : Value) (source : Source) (contexts : List Context)
    → normalize_source policy ≡ ok source
    → AllDistinct source.conditions
    → All (λ (c : Context). IsList c.entitlements) contexts
    → differential_policy_check order policy contexts
      ≡ ok (record { agrees = true; cases = length contexts })
unfolding differential_policy_check
differential_policy_check-agrees order policy source contexts accepted distinct lists =
    ap (λ (r : Result Source). r >>= λ s. compare_contexts order s contexts 0) accepted
    ∙ compare_contexts-agree order source distinct contexts 0 lists
    ∙ ap (λ c. ok (record { agrees = true; cases = c })) (nothing_add (length contexts))
