-- ===== src/Policy/Operators.antt =====
-- Compiled conditions hold where interpreted ones do (src/policy-compiler.js: compiledCondition,
-- evaluateWhere and interpretWhere).
use syncio.Base.{
  ◌≡◌, refl, sym, ap, subst, ◌∙◌, String, Bool, true, false, not, ◌&&◌, Bool-cases, inl, inr, none,
  List, [], ◌∷◌, any, all, ◌==◌, eq_iff, if◌then◌else◌,
}
use syncio.Json.{Value, obj, Fields, end, field, truthy, exotic}
use syncio.Document.Path.{own}
use syncio.Policy.Conditions.{
  Order, same_value, is_defined, same_truth, candidates_of, holds, compiled_operators,
  compiled_condition, evaluate_where, interpret_operator, interpret_operators, interpret_condition,
  interpret_where, read_at,
}

-- The keys of an object are its own once.
abbrev pub AreDistinct : Fields → Type 0
AreDistinct end = Unit
AreDistinct (field k v fs) = (own k fs ≡ none) × AreDistinct fs

abbrev pub HasDistinct : Value → Type 0
HasDistinct (obj fs) = AreDistinct fs
HasDistinct _ = Unit

abbrev pub AllDistinct : Fields → Type 0
AllDistinct end = Unit
AllDistinct (field k v fs) = HasDistinct v × AllDistinct fs

&&-swap : (a b c d : Bool) → ((a && b) && (c && d)) ≡ ((a && c) && (b && d))
&&-swap true true c d = refl
&&-swap true false true d = refl
&&-swap true false false d = refl
&&-swap false b c d = refl

&&-true : (a : Bool) → (a && true) ≡ a
&&-true true = refl
&&-true false = refl

-- Nine tests one after another.
&&-all :
    (a b c d e f g h i : Bool)
    → (a && b && c && d && e && f && g && h && i)
      ≡ (a && (b && (c && (d && (e && (f && (g && (h && (i && true)))))))))
&&-all false b c d e f g h i = refl
&&-all true false c d e f g h i = refl
&&-all true true false d e f g h i = refl
&&-all true true true false e f g h i = refl
&&-all true true true true false f g h i = refl
&&-all true true true true true false g h i = refl
&&-all true true true true true true false h i = refl
&&-all true true true true true true true false i = refl
&&-all true true true true true true true true false = refl
&&-all true true true true true true true true true = refl

module _ (k : String) (v : Value) (fs : Fields) (new : own k fs ≡ none) where
  -- A test of the field of an operator, when one field more is looked at.
  holds-field :
      (operator : String) (test : Value → Bool)
      → holds test (own operator (field k v fs))
        ≡ ((if k == operator then test v else true) && holds test (own operator fs))
  unfolding own
  holds-field operator test = elim (Bool-cases (k == operator)) [
    | inr other ↦ rw other
    | inl same ↦
        let absent : own operator fs ≡ none =
          subst (λ o. own o fs ≡ none) ((eq_iff k operator).0 same) new in
        rw (same, absent) (sym (&&-true (test v)))
  ]

  all-field :
      (tests : List (String × (Value → Bool)))
      → all (λ (t : String × (Value → Bool)). holds t.1 (own t.0 (field k v fs))) tests ≡ (
          all (λ (t : String × (Value → Bool)). if k == t.0 then t.1 v else true) tests
          && all (λ (t : String × (Value → Bool)). holds t.1 (own t.0 fs)) tests)
  all-field [] = refl
  all-field ((operator, test) ∷ tests) =
      let rest = all-field tests in
      ap (λ b. b && all (λ (t : String × (Value → Bool)). holds t.1 (own t.0 (field k v fs))) tests)
        (holds-field operator test)
      ∙ ap (λ b. ((if k == operator then test v else true) && holds test (own operator fs)) && b)
          rest
      ∙ &&-swap (if k == operator then test v else true) (holds test (own operator fs)) _ _

module _ (order : Order) (actual : Value) where
  -- The operators with their tests.
  abbrev tests : List (String × (Value → Bool))
  tests =
      ("$eq", λ expected. same_value actual expected)
      ∷ ("$ne", λ expected. not (same_value actual expected))
      ∷ ("$in", λ expected. any (λ v. same_value v actual) (candidates_of expected))
      ∷ ("$nin", λ expected. not (any (λ v. same_value v actual) (candidates_of expected)))
      ∷ ("$exists", λ expected. same_truth (is_defined actual) (truthy expected))
      ∷ ("$gt", λ expected. order.less expected actual)
      ∷ ("$gte", λ expected. order.at_most expected actual)
      ∷ ("$lt", λ expected. order.less actual expected)
      ∷ ("$lte", λ expected. order.at_most actual expected)
      ∷ []

  compiled_operators-tests :
      (fs : Fields)
      → compiled_operators order fs actual
        ≡ all (λ (t : String × (Value → Bool)). holds t.1 (own t.0 fs)) tests
  unfolding compiled_operators
  compiled_operators-tests fs =
      let at = λ (operator : String) (test : Value → Bool). holds test (own operator fs) in
      &&-all (at "$eq" (λ expected. same_value actual expected))
        (at "$ne" (λ expected. not (same_value actual expected)))
        (at "$in" (λ expected. any (λ v. same_value v actual) (candidates_of expected)))
        (at "$nin" (λ expected. not (any (λ v. same_value v actual) (candidates_of expected))))
        (at "$exists" (λ expected. same_truth (is_defined actual) (truthy expected)))
        (at "$gt" (λ expected. order.less expected actual))
        (at "$gte" (λ expected. order.at_most expected actual))
        (at "$lt" (λ expected. order.less actual expected))
        (at "$lte" (λ expected. order.at_most actual expected))

  -- That the tests of one field are the interpreter's.
  abbrev Agrees : Value → String → Type 0
  Agrees v k =
      all (λ (t : String × (Value → Bool)). if k == t.0 then t.1 v else true) tests
      ≡ interpret_operator order k v actual

  at_operator :
      (k : String) (v : Value) (operator : String)
      → (k == operator) ≡ true
      → Agrees v operator
      → Agrees v k
  at_operator k v operator same agrees = subst (Agrees v) (sym ((eq_iff k operator).0 same)) agrees

  operator-tests : (k : String) (v : Value) → Agrees v k
  unfolding interpret_operator
  operator-tests k v = elim (Bool-cases (k == "$eq")) [
    | inl is_it ↦ at_operator k v "$eq" is_it (&&-true _)
    | inr no1 ↦ elim (Bool-cases (k == "$ne")) [
      | inl is_it ↦ at_operator k v "$ne" is_it (&&-true _)
      | inr no2 ↦ elim (Bool-cases (k == "$in")) [
        | inl is_it ↦ at_operator k v "$in" is_it (&&-true _)
        | inr no3 ↦ elim (Bool-cases (k == "$nin")) [
          | inl is_it ↦ at_operator k v "$nin" is_it (&&-true _)
          | inr no4 ↦ elim (Bool-cases (k == "$exists")) [
            | inl is_it ↦ at_operator k v "$exists" is_it (&&-true _)
            | inr no5 ↦ elim (Bool-cases (k == "$gt")) [
              | inl is_it ↦ at_operator k v "$gt" is_it (&&-true _)
              | inr no6 ↦ elim (Bool-cases (k == "$gte")) [
                | inl is_it ↦ at_operator k v "$gte" is_it (&&-true _)
                | inr no7 ↦ elim (Bool-cases (k == "$lt")) [
                  | inl is_it ↦ at_operator k v "$lt" is_it (&&-true _)
                  | inr no8 ↦ elim (Bool-cases (k == "$lte")) [
                    | inl is_it ↦ at_operator k v "$lte" is_it (&&-true _)
                    | inr no9 ↦ rw (no1, no2, no3, no4, no5, no6, no7, no8, no9)
                  ]
                ]
              ]
            ]
          ]
        ]
      ]
    ]
  ]

  operators-agree :
      (fs : Fields)
      → AreDistinct fs
      → compiled_operators order fs actual ≡ interpret_operators order fs actual
  unfolding interpret_operators own
  operators-agree end distinct = compiled_operators-tests end
  operators-agree (field k v fs) (new, distinct) =
      compiled_operators-tests (field k v fs)
      ∙ all-field k v fs new tests
      ∙ ap (λ b. b && all (λ (t : String × (Value → Bool)). holds t.1 (own t.0 fs)) tests)
          (operator-tests k v)
      ∙ ap (λ b. interpret_operator order k v actual && b) (sym (compiled_operators-tests fs))
      ∙ ap (λ b. interpret_operator order k v actual && b) (operators-agree fs distinct)

  condition-agree :
      (condition : Value)
      → HasDistinct condition
      → compiled_condition order condition actual ≡ interpret_condition order condition actual
  unfolding compiled_condition interpret_condition
  condition-agree (obj fs) distinct = operators-agree fs distinct
  condition-agree (exotic true) distinct = refl
  condition-agree (exotic false) distinct = refl
  condition-agree _ distinct = refl

pub where-agree :
    (order : Order) (fs : Fields) (document : Value)
    → AllDistinct fs
    → evaluate_where order fs document ≡ interpret_where order fs document
unfolding evaluate_where interpret_where
where-agree order end document distinct = refl
where-agree order (field key condition fs) document (here, rest) =
    ap (λ b. b && evaluate_where order fs document)
      (condition-agree order (read_at order document key) condition here)
    ∙ ap (λ b. interpret_condition order condition (read_at order document key) && b)
        (where-agree order fs document rest)
