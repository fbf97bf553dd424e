-- ===== src/Database/Transaction/Steps.antt =====
-- What one change of a difference does to collections between those before and those behind
-- (src/index.js: diffCollections, applyEventToState).
use text.Mathlib.TextPositions.{eq_refl}
use mathlib.Core.Path.{fun_ext}
use mathlib.Core.Option.{some-injective}
use syncio.Base.{
  ℕ, ◌≡◌, ◌≢◌, ◌⊎◌, refl, sym, ap, ◌∙◌, subst, String, true, false, inl, inr, Bool-cases, Option,
  none, some, List, [], ◌∷◌, ◌++◌, Result, ok, ◌>>=◌, ◌||◌, >>=-eq-ok, ok-injective, ◌==◌, eq_iff,
  if◌then◌else◌,
}
use syncio.Base.Maps.{Map}
use syncio.Json.{Value, undefined, valid_id, validate_collection_name}
use syncio.Json.Checks.{validate_record-obj, validate_id-str, truthy-valid_id}
use syncio.Change.{Change}
use syncio.Database.State.{Collection, State}
use syncio.Database.Events.{Env, append_change, append_changes, make_event}
use syncio.Database.Replay.{store, erase, Effect, run_effect, effect_of, event_effect}
use syncio.Database.Same.{Equality, Alike, Alike-refl, at, get-store, get-erase}
use syncio.Database.Effects.{effects}
use syncio.Database.Collection.{local_change}
use syncio.Database.Transaction.{diff_record}
use syncio.Database.Transaction.Tracks.{Tracks, IsRecordOf}

-- What changes do to the collections, in their order.
unfoldable pub change_effects : List Change → Map Collection → Result (Map Collection)
change_effects [] cs = ok cs
change_effects (c ∷ more) cs = do
  effect ← effect_of c.collection c.type c.id c.body
  change_effects more (run_effect c.collection effect cs)

-- The events made of changes have the changes' effects.
pub effects-append_changes :
    (retention : ℕ) (env : Env) (s : State) (changes : List Change) (cs : Map Collection)
    → effects (append_changes retention env s changes).0 cs ≡ change_effects changes cs
unfolding effects append_changes append_change make_event event_effect change_effects
effects-append_changes retention env s [] cs = refl
effects-append_changes retention env s (c ∷ more) cs =
    ap (λ (k : Effect → Result (Map Collection)). effect_of c.collection c.type c.id c.body >>= k)
      (fun_ext λ effect.
        effects-append_changes retention env (append_change retention env false s c).1 more
          (run_effect c.collection effect cs))

pub change_effects-append :
    (xs ys : List Change) (cs ds es : Map Collection)
    → change_effects xs cs ≡ ok ds
    → change_effects ys ds ≡ ok es
    → change_effects (xs ++ ys) cs ≡ ok es
unfolding change_effects
change_effects-append [] ys cs ds es h k = rw (ok-injective h) k
change_effects-append (c ∷ xs) ys cs ds es h k =
    let (effect, found, rest) = >>=-eq-ok (effect_of c.collection c.type c.id c.body) _ h in
    rw found (change_effects-append xs ys (run_effect c.collection effect cs) ds es rest k)

module _ (q : Equality) (before after : Map Collection) where
  abbrev pub Between : Map Collection → Type 0
  Between m = (n k : String) → (at q n k m ≡ at q n k before) ⊎ (at q n k m ≡ at q n k after)

  -- What is not left alone is as it shall be.
  abbrev pub Grows : Map Collection → Map Collection → Type 0
  Grows m m' = (n k : String) → (at q n k m' ≡ at q n k m) ⊎ (at q n k m' ≡ at q n k after)

  abbrev pub Settled : String → String → Map Collection → Type 0
  Settled n k m = Alike q (at q n k m) (at q n k after)

  abbrev pub IsPresent : String → String → Type 0
  IsPresent n k = (at q n k before ≢ none) ⊎ (at q n k after ≢ none)

  pub Between-Grows : (m m' : Map Collection) → Between m → Grows m m' → Between m'
  Between-Grows m m' b g n k = elim (g n k) [
    | inr done ↦ inr done
    | inl same ↦ elim (b n k) [ inl e ↦ inl (same ∙ e) | inr e ↦ inr (same ∙ e) ]
  ]

  pub Settled-Grows :
      (m m' : Map Collection) (n k : String) → Settled n k m → Grows m m' → Settled n k m'
  Settled-Grows m m' n k s g = elim (g n k) [
    | inr done ↦ rw done (Alike-refl q (at q n k after))
    | inl same ↦ rw same s
  ]

  pub Grows-trans : (m m' m'' : Map Collection) → Grows m m' → Grows m' m'' → Grows m m''
  Grows-trans m m' m'' g h n k = elim (h n k) [
    | inr done ↦ inr done
    | inl same ↦ elim (g n k) [ inl e ↦ inl (same ∙ e) | inr e ↦ inr (same ∙ e) ]
  ]

  -- Writing what shall stand under one name and identity settles it, and leaves the rest alone.
  write-Grows :
      (name id : String) (new : Option Value) (m m' : Map Collection)
      → new ≡ at q name id after
      → ((n k : String)
          → at q n k m'
            ≡ (if name == n then (if id == k then new else at q name k m) else at q n k m))
      → Grows m m' × Settled name id m'
  write-Grows name id new m m' new_is written = (
    λ n k. elim (Bool-cases (name == n)) [
      | inr other ↦ inl (rw other at (written n k))
      | inl same ↦
          let here : name ≡ n = (eq_iff name n).0 same in
          elim (Bool-cases (id == k)) [
            | inr other ↦ inl ((rw (same, other) at (written n k)) ∙ ap (λ x. at q x k m) here)
            | inl this ↦ inr (
                (rw (same, this) at (written n k))
                ∙ new_is
                ∙ ap (λ x. at q x id after) here
                ∙ ap (λ x. at q n x after) ((eq_iff id k).0 this))
          ]
    ],
    rw ((rw (eq_refl name, eq_refl id) at (written name id)) ∙ new_is)
        (Alike-refl q (at q name id after)),
  )

  -- One record's change brings it to where it shall be.
  abbrev pub Step : String → String → List Change → Map Collection → Type 0
  Step name id changes m =
      (m' : Map Collection) × (change_effects changes m ≡ ok m') × Grows m m' × Settled name id m'

  Step-erase :
      (name id : String) (m : Map Collection)
      → validate_collection_name name ≡ ok tt
      → valid_id id ≡ true
      → at q name id after ≡ none
      → Step name id (local_change name "remove" id undefined ∷ []) m
  unfolding change_effects effect_of
  Step-erase name id m named valid gone =
      let (g, s) =
        write-Grows name id none m (erase name id m) (sym gone) (λ n k. get-erase name id m n k) in
      (erase name id m, rw (named, validate_id-str id valid), g, s)

  Step-store :
      (name type id : String) (m : Map Collection) (v : Value)
      → (type == "remove") ≡ false
      → (type == "insert" || type == "upsert") ≡ true
      → validate_collection_name name ≡ ok tt
      → valid_id id ≡ true
      → at q name id after ≡ some v
      → IsRecordOf id (some v)
      → Step name id (local_change name type id v ∷ []) m
  unfolding change_effects effect_of
  Step-store name type id m v kept known named valid there (fs, is_obj, json, is_id) =
      let (g, s) =
        write-Grows name id (some v) m (store name id v m) (sym there)
          (λ n k. get-store name id v m n k) in
      (
        store name id v m,
        rw (
          named,
          kept,
          known,
          is_obj,
          validate_record-obj fs json,
          is_id,
          truthy-valid_id id valid,
          validate_id-str id valid,
        ),
        g,
        s,
      )

  module _ (tracks : Tracks before after) (name id : String)
      (named : validate_collection_name name ≡ ok tt) (m : Map Collection) (b : Between m) where
    pub record-Step :
        (p r : Option Value)
        → at q name id before ≡ p
        → at q name id after ≡ r
        → IsPresent name id
        → Step name id (diff_record q name id p r) m
    unfolding diff_record change_effects
    record-Step none none e₁ e₂ here = elim here [ inl h ↦ absurd (h e₁) | inr h ↦ absurd (h e₂) ]
    record-Step (some p) none e₁ e₂ here = elim (tracks name id) [
      | inl same ↦ cc
      | inr (_, valid, _) ↦ Step-erase name id m named valid e₂
    ]
    record-Step none (some r) e₁ e₂ here = elim (tracks name id) [
      | inl same ↦ cc
      | inr (_, valid, is_record) ↦
          Step-store name "insert" id m r refl refl named valid e₂
            (subst (IsRecordOf id) e₂ is_record)
    ]
    record-Step (some p) (some r) e₁ e₂ here = elim (Bool-cases (q.deep_equal p r)) [
      | inl alike ↦ rw alike (
        m,
        refl,
        (λ n k. inl refl),
        elim (b name id) [
          | inl e ↦ rw (e ∙ e₁, e₂) alike
          | inr e ↦ rw e (Alike-refl q (at q name id after))
        ],
      )
      | inr other ↦ rw other (elim (tracks name id) [
        | inl same ↦
            let one : p ≡ r = some-injective p r (sym e₁ ∙ sym same ∙ e₂) in
            cc (subst (λ x. q.deep_equal p x ≡ true) one (q.reflexive p))
        | inr (_, valid, is_record) ↦
            Step-store name "upsert" id m r refl refl named valid e₂
              (subst (IsRecordOf id) e₂ is_record)
      ])
    ]
