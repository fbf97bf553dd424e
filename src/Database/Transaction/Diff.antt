-- ===== src/Database/Transaction/Diff.antt =====
-- The difference of two states' collections, applied to the first, gives the second
-- (src/index.js: diffCollections against applyEventToState).
use syncio.Base.{
  ◌≡◌, ◌≢◌, refl, sym, ◌∙◌, subst, String, inl, inr, Option-cases, none, List, [], ◌∷◌, ok,
  >>=-eq-ok, ok-injective,
}
use syncio.Base.Maps.{Map, get}
use syncio.Json.{validate_collection_name}
use syncio.Change.{Change}
use syncio.Database.State.{Collection, collection_of}
use syncio.Database.Same.{Equality, Alike-refl, AlikeMaps, at}
use syncio.Database.Transaction.{diff_record, diff_ids, diff_names, diff_collections, all_keys}
use syncio.Database.Transaction.Keys.{Within, Within-all_keys, all_keys-Within}
use syncio.Database.Transaction.Tracks.{Tracks}
use syncio.Database.Transaction.Steps.{
  change_effects, change_effects-append, Between, Grows, Settled, IsPresent, Between-Grows,
  Settled-Grows, Grows-trans, record-Step,
}

module _ (q : Equality) (before after : Map Collection) where
  diff_ids_lem :
      (tracks : Tracks before after) (name : String)
      → validate_collection_name name ≡ ok tt
      → (ids : List String) → ((id : String) → Within id ids → IsPresent q before after name id)
      → (m : Map Collection) → Between q before after m
      → (m' : Map Collection) × (change_effects
            (diff_ids q name (collection_of name before) (collection_of name after) ids)
            m
          ≡ ok m')
        × Grows q before after m m'
        × ((id : String) → Within id ids → Settled q before after name id m')
  unfolding diff_ids change_effects
  diff_ids_lem tracks name named [] here m b = (m, refl, (λ n k. inl refl), λ id w. absurd w)
  diff_ids_lem tracks name named (id ∷ ids) here m b =
      let (m₁, run₁, g₁, s₁) =
        record-Step q before after tracks name id named m b (at q name id before)
          (at q name id after) refl refl (here id (inl refl)) in
      let (m₂, run₂, g₂, s₂) =
        diff_ids_lem tracks name named ids (λ k w. here k (inr w)) m₁
          (Between-Grows q before after m m₁ b g₁) in
      (
        m₂,
        change_effects-append (diff_record q name id (at q name id before) (at q name id after))
            (diff_ids q name (collection_of name before) (collection_of name after) ids) m m₁ m₂
            run₁ run₂,
        Grows-trans q before after m m₁ m₂ g₁ g₂,
        λ k w. elim w [
          | inl e ↦
              subst (λ i. Settled q before after name i m₂) e
                (Settled-Grows q before after m₁ m₂ name id s₁ g₂)
          | inr r ↦ s₂ k r
        ],
      )

  diff_names_lem :
      (tracks : Tracks before after) (names : List String) (changes : List Change)
      → diff_names q before after names ≡ ok changes
      → (m : Map Collection) → Between q before after m
      → (m' : Map Collection) × (change_effects changes m ≡ ok m')
        × Grows q before after m m'
        × ((name id : String)
            → Within name names
            → IsPresent q before after name id
            → Settled q before after name id m')
  unfolding diff_names change_effects
  diff_names_lem tracks [] changes h m b =
      (m, rw (← ok-injective h), (λ n k. inl refl), λ name id w here. absurd w)
  diff_names_lem tracks (name ∷ names) changes h m b =
      let (_, named, h₁) = >>=-eq-ok (validate_collection_name name) _ h in
      let (rest, found, h₂) = >>=-eq-ok (diff_names q before after names) _ h₁ in
      let previous : Collection = collection_of name before in
      let next : Collection = collection_of name after in
      let (m₁, run₁, g₁, s₁) =
        diff_ids_lem tracks name named (all_keys previous next)
          (λ id w. all_keys-Within id previous next w) m b in
      let (m₂, run₂, g₂, s₂) =
        diff_names_lem tracks names rest found m₁ (Between-Grows q before after m m₁ b g₁) in
      (
        m₂,
        rw (← ok-injective h₂) (
            change_effects-append (diff_ids q name previous next (all_keys previous next)) rest m m₁
              m₂ run₁ run₂),
        Grows-trans q before after m m₁ m₂ g₁ g₂,
        λ n k w here. elim w [
          | inl e ↦
              subst (λ i. Settled q before after i k m₂) e
                (Settled-Grows q before after m₁ m₂ name k
                  (s₁ k (
                    Within-all_keys k previous next
                      (subst (λ i. IsPresent q before after i k) (sym e) here)))
                  g₂)
          | inr r ↦ s₂ n k r here
        ],
      )

  -- A collection with a record in it is a key.
  collection-present :
      (name id : String) (m : Map Collection) → at q name id m ≢ none → get name m ≢ none
  unfolding collection_of get
  collection-present name id m h = λ e. h (rw (e, collection_of))

  all :
      (n k : String) (m : Map Collection)
      → Grows q before after before m
      → ((name id : String)
          → Within name (all_keys before after)
          → IsPresent q before after name id
          → Settled q before after name id m)
      → Settled q before after n k m
  all n k m g s = elim (Option-cases (at q n k before)) [
    | inr (v, e) ↦
        let here : at q n k before ≢ none = λ x. cc in
        s n k (Within-all_keys n before after (inl (collection-present n k before here))) (inl here)
    | inl e ↦ elim (Option-cases (at q n k after)) [
      | inr (v, e') ↦
          let here : at q n k after ≢ none = λ x. cc in
          s n k (Within-all_keys n before after (inr (collection-present n k after here)))
            (inr here)
      | inl e' ↦ elim (g n k) [
        | inl same ↦ rw (same ∙ e, e') tt
        | inr done ↦ rw done (Alike-refl q (at q n k after))
      ]
    ]
  ]

  -- Applied to the collections before, the difference gives collections that hold what those behind
  -- hold, provided that what changed is valid.
  pub diff_collections_lem :
      (changes : List Change)
      → Tracks before after
      → diff_collections q before after ≡ ok changes
      → (m' : Map Collection) × (change_effects changes before ≡ ok m') × AlikeMaps q m' after
  unfolding diff_collections
  diff_collections_lem changes tracks h =
      let (m', run, g, s) =
        diff_names_lem tracks (all_keys before after) changes h before (λ n k. inl refl) in
      (m', run, λ n k. all n k m' g s)
