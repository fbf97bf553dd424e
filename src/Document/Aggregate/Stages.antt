-- ===== src/Document/Aggregate/Stages.antt =====
-- Laws of pipelines (src/document.js: aggregateDocuments and its $match).
use syncio.Base.{
  ◌≡◌, refl, sym, subst, ◌∙◌, Bool, true, false, Bool-cases, inl, inr, List, [], ◌∷◌, ◌++◌, Result,
  ok, err, ◌>>=◌, >>=-eq-ok, ok-injective, if◌then◌else◌,
}
use syncio.Json.{Value, arr, obj, nil, cons, Fields, end, field}
use syncio.Document.Runtime.{Runtime}
use syncio.Document.Match.{query_key, matches}
use syncio.Document.Aggregate.{
  filter_result, single_entry, stage_of, run_stage, aggregate_documents,
}

>>=-assoc :
    {A B C : Type 0} (r : Result A) (f : A → Result B) (g : B → Result C)
    → ((r >>= f) >>= g) ≡ (r >>= λ x. f x >>= g)
>>=-assoc (ok x) f g = refl
>>=-assoc (err e) f g = refl

>>=-same :
    {A B : Type 0} (r : Result A) (f g : A → Result B)
    → ((x : A) → f x ≡ g x)
    → (r >>= f) ≡ (r >>= g)
>>=-same (ok x) f g same = same x
>>=-same (err e) f g same = refl

-- A stage that keeps the rows of a query.
abbrev pub match_with : Value → Value
match_with query = obj (field "$match" query end)

-- The query that both of two queries match.
abbrev pub both : Value → Value → Value
both p q = obj (field "$and" (arr (cons p (cons q nil))) end)

module _ (rt : Runtime) where
  -- A pipeline in two parts is run as the first part and then the second on what that leaves; it throws
  -- what the first of them throws.
  pub aggregate_documents-append :
      (first second : List Value) (rows : List Fields)
      → aggregate_documents rt (first ++ second) rows
        ≡ (aggregate_documents rt first rows >>= aggregate_documents rt second)
  unfolding aggregate_documents
  aggregate_documents-append [] second rows = refl
  aggregate_documents-append (stage ∷ first) second rows =
      >>=-same (single_entry stage) _ _ (λ entry.
        >>=-same (run_stage rt (stage_of entry.0) entry.1 rows) _ _
          (aggregate_documents-append first second)
        ∙ sym (>>=-assoc (run_stage rt (stage_of entry.0) entry.1 rows) _ _))
      ∙ sym (>>=-assoc (single_entry stage) _ _)

  matches-both :
      (row p q : Value) (a b : Bool)
      → matches rt row p ≡ ok a
      → matches rt row q ≡ ok b
      → matches rt row (both p q) ≡ ok (if a then b else false)
  unfolding matches query_key
  matches-both row p q true true first second = rw (first, second)
  matches-both row p q true false first second = rw (first, second)
  matches-both row p q false b first second = rw first

  matches-both-not :
      (row p q : Value) → matches rt row p ≡ ok false → matches rt row (both p q) ≡ ok false
  unfolding matches query_key
  matches-both-not row p q first = rw first

  filter_result-both :
      (p q : Value) (rows middle kept : List Fields)
      → filter_result (λ row. matches rt (obj row) p) rows ≡ ok middle
      → filter_result (λ row. matches rt (obj row) q) middle ≡ ok kept
      → filter_result (λ row. matches rt (obj row) (both p q)) rows ≡ ok kept
  unfolding filter_result
  filter_result-both p q [] middle kept h k =
      subst (λ m. filter_result (λ row. matches rt (obj row) q) m ≡ ok kept) (sym (ok-injective h))
        k
  filter_result-both p q (row ∷ rows) middle kept h k =
      let (held, tested, h₁) = >>=-eq-ok (matches rt (obj row) p) _ h in
      let (rest, filtered, last) =
        >>=-eq-ok (filter_result (λ r. matches rt (obj r) p) rows) _ h₁ in
      elim (Bool-cases held) [
        | inl yes_held ↦
            let joined : row ∷ rest ≡ middle = ok-injective (rw yes_held at last) in
            let next : filter_result (λ r. matches rt (obj r) q) (row ∷ rest) ≡ ok kept =
              subst (λ m. filter_result (λ r. matches rt (obj r) q) m ≡ ok kept) (sym joined) k in
            let (fits, tested', k₁) = >>=-eq-ok (matches rt (obj row) q) _ next in
            let (rest', filtered', last') =
              >>=-eq-ok (filter_result (λ r. matches rt (obj r) q) rest) _ k₁ in
            rw
              (
                matches-both (obj row) p q true fits (rw yes_held at tested) tested',
                filter_result-both p q rows rest rest' filtered filtered',
              )
              last'
        | inr not_held ↦
            let joined : rest ≡ middle = ok-injective (rw not_held at last) in
            rw (
              matches-both-not (obj row) p q (rw not_held at tested),
              filter_result-both p q rows rest kept filtered (
                  subst (λ m. filter_result (λ r. matches rt (obj r) q) m ≡ ok kept) (sym joined)
                    k),
            )
      ]

  match_with-both :
      (p q : Value) (rows kept : List Fields)
      → aggregate_documents rt (match_with p ∷ match_with q ∷ []) rows ≡ ok kept
      → aggregate_documents rt (match_with (both p q) ∷ []) rows ≡ ok kept
  unfolding aggregate_documents run_stage stage_of
  match_with-both p q rows kept h =
      let (middle, first, h₁) =
        >>=-eq-ok (filter_result (λ row. matches rt (obj row) p) rows) _ h in
      let (last, second, done) =
        >>=-eq-ok (filter_result (λ row. matches rt (obj row) q) middle) _ h₁ in
      rw (filter_result-both p q rows middle last first second) done

  -- Where a pipeline returns that keeps, at some place, the matches of one query and then those of
  -- another, keeping the matches of both at once there returns the same.
  pub aggregate_documents-both :
      (before after : List Value) (p q : Value) (rows kept : List Fields)
      → aggregate_documents rt (before ++ match_with p ∷ match_with q ∷ after) rows ≡ ok kept
      → aggregate_documents rt (before ++ match_with (both p q) ∷ after) rows ≡ ok kept
  aggregate_documents-both before after p q rows kept h =
      let h₀ =
        sym (aggregate_documents-append before (match_with p ∷ match_with q ∷ after) rows) ∙ h in
      let (start, ran, h₁) = >>=-eq-ok (aggregate_documents rt before rows) _ h₀ in
      let h₂ =
        sym (aggregate_documents-append (match_with p ∷ match_with q ∷ []) after start) ∙ h₁ in
      let (middle, matched, last) =
        >>=-eq-ok (aggregate_documents rt (match_with p ∷ match_with q ∷ []) start) _ h₂ in
      rw
        (
          aggregate_documents-append before (match_with (both p q) ∷ after) rows,
          ran,
          aggregate_documents-append (match_with (both p q) ∷ []) after start,
          match_with-both p q start middle matched,
        )
        last
