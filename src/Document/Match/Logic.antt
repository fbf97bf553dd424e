-- ===== src/Document/Match/Logic.antt =====
-- Laws of queries (src/document.js: matchesDocument, matchesCondition).
use syncio.Base.{
  ◌≡◌, refl, sym, ap, ◌∙◌, String, Bool, true, false, Bool-cases, Result-cases, inl, inr, List, [],
  ◌∷◌, Result, ok, err, ◌>>=◌, arith, any, ◌||◌, ◌==◌,
}
use syncio.Json.{Value, arr, obj, Items, nil, cons, end, field}
use syncio.Document.Runtime.{Runtime}
use syncio.Document.Path.{get_path, resolve_values, split_path}
use syncio.Document.Match.{
  is_operator, items_list, query_key, operator_of, has_operator, equal_mongo_like, matches,
  matches_fields, every_matches, some_matches, negate,
}
use syncio.Document.Update.Setting.{query_key-path}

-- `{ $not: part }` for each part of a list.
abbrev pub negated : Items → Items
negated nil = nil
negated (cons x xs) = cons (obj (field "$not" x end)) (negated xs)

abbrev pub AllObjects : Items → Type 0
AllObjects nil = Unit
AllObjects (cons (obj fs) xs) = AllObjects xs
AllObjects (cons _ xs) = ⊥

-- `{ path: { $eq: candidate } }` for each candidate.
abbrev pub each_equal : String → Items → Items
each_equal path nil = nil
each_equal path (cons x xs) =
    cons (obj (field path (obj (field "$eq" x end)) end)) (each_equal path xs)

any-or :
    {A : Type 0} (p q : A → Bool) (xs : List A) → any (λ x. p x || q x) xs ≡ (any p xs || any q xs)
any-or p q [] = refl
any-or p q (x ∷ xs) = ground (arith, any-or p q xs)

any-none : {A : Type 0} (xs : List A) → any (λ x. false) xs ≡ false
any-none [] = refl
any-none (x ∷ xs) = any-none xs

-- Two searches may be made in either order.
any-any :
    {A B : Type 0} (test : A → B → Bool) (xs : List A) (ys : List B)
    → any (λ x. any (test x) ys) xs ≡ any (λ y. any (λ x. test x y) xs) ys
any-any test [] ys = sym (any-none ys)
any-any test (x ∷ xs) ys =
    ap (λ b. any (test x) ys || b) (any-any test xs ys)
    ∙ sym (any-or (test x) (λ y. any (λ z. test z y) xs) ys)

module _ (rt : Runtime) (document : Value) where
  every_matches-negated :
      (xs : Items)
      → AllObjects xs
      → every_matches rt document (negated xs) ≡ negate (some_matches rt document xs)
  unfolding matches query_key
  every_matches-negated nil h = refl
  every_matches-negated (cons (obj fs) xs) h = elim (Result-cases (matches_fields rt document fs)) [
    | inr (e, thrown) ↦ rw thrown
    | inl (true, held) ↦ rw held
    | inl (false, held) ↦ rw (held, every_matches-negated xs h)
  ]
  every_matches-negated (cons _ xs) h = absurd h

  result_of :
      (r : Result Bool) → (r >>= λ held. elim held [ false ↦ ok false | true ↦ ok true ]) ≡ r
  result_of (ok true) = refl
  result_of (ok false) = refl
  result_of (err e) = refl

  -- A document matches none of some queries exactly if it matches all their negations, and where one
  -- search throws, the other throws the same.
  pub matches-nor :
      (xs : Items)
      → AllObjects xs
      → matches rt document (obj (field "$nor" (arr xs) end))
        ≡ matches rt document (obj (field "$and" (arr (negated xs)) end))
  unfolding matches query_key
  matches-nor xs h =
      result_of (negate (some_matches rt document xs))
      ∙ sym (every_matches-negated xs h)
      ∙ sym (result_of (every_matches rt document (negated xs)))

  module _ (path : String) (values : List Value) (plain : is_operator path ≡ false)
      (found : get_path document path ≡ ok values) where
    matches-equal :
        (x : Value)
        → matches rt document (obj (field path (obj (field "$eq" x end)) end))
          ≡ ok (any (λ v. equal_mongo_like rt v x) values)
    unfolding matches operator_of has_operator is_operator
    matches-equal x = rw (
      query_key-path path plain,
      found,
      result_of (ok (any (λ v. equal_mongo_like rt v x) values)),
      result_of (ok (any (λ v. equal_mongo_like rt v x) values)),
    )

    some_matches-each_equal :
        (xs : Items)
        → some_matches rt document (each_equal path xs)
          ≡ ok (any (λ c. any (λ v. equal_mongo_like rt v c) values) (items_list xs))
    unfolding items_list matches
    some_matches-each_equal nil = refl
    some_matches-each_equal (cons x xs) =
        let rest = some_matches-each_equal xs in
        elim (Bool-cases (any (λ v. equal_mongo_like rt v x) values)) [
          | inl here ↦ rw (matches-equal x, here)
          | inr absent ↦ rw (matches-equal x, absent, rest)
        ]

  -- A path that is no operator and not empty is in a list of candidates exactly if it equals one of
  -- them: the query with $in gives what the query with $or and $eq gives.
  pub matches-in :
      (path : String) (xs : Items)
      → is_operator path ≡ false
      → (path == "") ≡ false
      → matches rt document (obj (field path (obj (field "$in" (arr xs) end)) end))
        ≡ matches rt document (obj (field "$or" (arr (each_equal path xs)) end))
  unfolding matches operator_of has_operator is_operator get_path query_key
  matches-in path xs plain nonempty =
      let values = resolve_values document (split_path path) in
      let found : get_path document path ≡ ok values = rw nonempty in
      let right = some_matches-each_equal path values plain found xs in
      rw
        (
          query_key-path path plain,
          found,
          right,
          any-any (λ v c. equal_mongo_like rt v c) values (items_list xs),
        )
        (result_of _)
