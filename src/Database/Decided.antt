-- ===== src/Database/Decided.antt =====
-- A decided write is a commit that extends the state (src/index.js: insert, upsert, remove).
use mathlib.Core.Bool.{not}
use syncio.Base.{
  ℕ, ◌≡◌, ◌⊎◌, refl, ap, String, Bool, true, false, inl, inr, Bool-cases, [], ◌∷◌, ok, ◌==◌, ◌||◌,
  >>=-eq-ok, require-eq-ok, ok-injective, record_exists, type_error,
}
use syncio.Base.Maps.{Map}
use syncio.Json.{
  Value, undefined, str, obj, Fields, get_field, set_field, truthy, json_fields, valid_id,
  validate_id, validate_record, validate_collection_name,
}
use syncio.Json.Checks.{
  get_field-set_field_self, json_fields-set_field, validate_record-eq-ok, validate_record-obj,
  validate_id-eq-ok, validate_id-str, truthy-valid_id,
}
use syncio.Change.{Change, Event}
use syncio.Database.State.{Collection, State}
use syncio.Database.Events.{Env, append_change, append_changes, make_event}
use syncio.Database.History.{IsOrdered, IsOrdered-collections}
use syncio.Database.Replay.{store, erase, Effect, event_effect, storing, erasing, run_effect}
use syncio.Database.Same.{Equality, Alike-refl, at}
use syncio.Database.Effects.{Extends, effects}
use syncio.Database.Appended.{append_changes-Extends, append_changes-IsOrdered}
use syncio.Database.Collection.{
  Write, event_write, local_change, read, id_or, decide_insert, decide_upsert, decide_remove,
}

-- A decided write commits nothing, or it extends the state.
abbrev pub IsCommit : {A : Type 0} → Equality → ℕ → State → Write A → Type 0
IsCommit q retention s w =
    (w.events ≡ []) ⊎ (Extends q retention s w.events w.draft × IsOrdered w.draft)

pub type_tests :
    (type : String)
    → (type ≡ "insert") ⊎ (type ≡ "upsert")
    → ((type == "remove") ≡ false) × ((type == "insert" || type == "upsert") ≡ true)
type_tests type (inl e) = rw e (refl, refl)
type_tests type (inr e) = rw e (refl, refl)

-- The effects of the events that local writes make.
pub event_effect-write :
    (e : Event) (id : String) (fields : Fields)
    → validate_collection_name e.collection ≡ ok tt
    → (e.type ≡ "insert") ⊎ (e.type ≡ "upsert")
    → e.body ≡ obj fields
    → json_fields fields ≡ true
    → get_field "id" fields ≡ str id
    → valid_id id ≡ true
    → event_effect e ≡ ok (storing id e.body)
unfolding event_effect
event_effect-write e id fields name type body json named valid =
    let (kept, known) = type_tests e.type type in
    rw (
      name,
      kept,
      known,
      body,
      validate_record-obj fields json,
      named,
      truthy-valid_id id valid,
      validate_id-str id valid,
    )

pub event_effect-remove :
    (e : Event) (id : String)
    → validate_collection_name e.collection ≡ ok tt
    → e.type ≡ "remove"
    → e.id ≡ str id
    → valid_id id ≡ true
    → event_effect e ≡ ok (erasing id)
unfolding event_effect
event_effect-remove e id name type named valid = rw (name, type, named, validate_id-str id valid)

module _ (q : Equality) where
  event_write-IsCommit :
      {A : Type 0} (retention : ℕ) (env : Env) (s : State) (cs : Map Collection) (change : Change)
      (result : A) (effect : Effect)
      → IsOrdered s
      → event_effect (make_event env false (record s { collections = cs }) change) ≡ ok effect
      → run_effect change.collection effect s.collections ≡ cs
      → IsCommit q retention s (event_write retention env s cs change result)
  unfolding event_write append_changes append_change effects make_event
  event_write-IsCommit retention env s cs change result effect inv found run = inr (
    append_changes-Extends retention env q s cs change [] cs (rw found (ap ok run))
        (λ name id. Alike-refl q (at q name id cs)),
    append_changes-IsOrdered retention env (record s { collections = cs }) (change ∷ [])
        (IsOrdered-collections cs s inv),
  )

  module _ (retention : ℕ) (env : Env) (name : String) (s : State) (inv : IsOrdered s) where
    pub decide_insert-IsCommit :
        (value : Value) (w : Write Value)
        → decide_insert retention env name value s ≡ ok w
        → IsCommit q retention s w
    unfolding decide_insert make_event
    decide_insert-IsCommit value w h =
        let (_, named, h₁) = >>=-eq-ok (validate_collection_name name) _ h in
        let (fields, checked, h₂) = >>=-eq-ok (validate_record value) _ h₁ in
        let (id, given, h₃) =
          >>=-eq-ok (validate_id (id_or env.record_id (get_field "id" fields))) _ h₂ in
        let (_, h₄) =
          require-eq-ok (not (truthy (read name id s.collections))) record_exists _ h₃ in
        let (_, valid) = validate_id-eq-ok (id_or env.record_id (get_field "id" fields)) given in
        let body : Fields = set_field "id" (str id) fields in
        let cs : Map Collection = store name id (obj body) s.collections in
        let change : Change = local_change name "insert" id (obj body) in
        rw (← ok-injective h₄) (
          event_write-IsCommit retention env s cs change (obj body) (storing id (obj body)) inv
            (event_effect-write (make_event env false (record s { collections = cs }) change) id
              body named (inl refl) refl
              (json_fields-set_field "id" id fields (validate_record-eq-ok value checked).1)
              (get_field-set_field_self "id" (str id) fields) valid)
            refl)

    pub decide_upsert-IsCommit :
        (value : Value) (w : Write Value)
        → decide_upsert retention env name value s ≡ ok w
        → IsCommit q retention s w
    unfolding decide_upsert make_event
    decide_upsert-IsCommit value w h =
        let (_, named, h₁) = >>=-eq-ok (validate_collection_name name) _ h in
        let (fields, checked, h₂) = >>=-eq-ok (validate_record value) _ h₁ in
        let (_, h₃) = require-eq-ok (truthy (get_field "id" fields)) type_error _ h₂ in
        let (id, given, h₄) = >>=-eq-ok (validate_id (get_field "id" fields)) _ h₃ in
        let (is_id, valid) = validate_id-eq-ok (get_field "id" fields) given in
        let (is_obj, json) = validate_record-eq-ok value checked in
        let cs : Map Collection = store name id value s.collections in
        let change : Change = local_change name "upsert" id value in
        rw (← ok-injective h₄) (
          event_write-IsCommit retention env s cs change value (storing id value) inv
            (event_effect-write (make_event env false (record s { collections = cs }) change) id
              fields named (inr refl) is_obj json is_id valid)
            refl)

    pub decide_remove-IsCommit :
        (id_value : Value) (w : Write Bool)
        → decide_remove retention env name id_value s ≡ ok w
        → IsCommit q retention s w
    unfolding decide_remove make_event
    decide_remove-IsCommit id_value w h =
        let (_, named, h₁) = >>=-eq-ok (validate_collection_name name) _ h in
        let (id, given, h₂) = >>=-eq-ok (validate_id id_value) _ h₁ in
        let (_, valid) = validate_id-eq-ok id_value given in
        let cs : Map Collection = erase name id s.collections in
        let change : Change = local_change name "remove" id undefined in
        elim (Bool-cases (truthy (read name id s.collections))) [
          | inr absent ↦ rw (← ok-injective (rw absent at h₂)) (inl refl)
          | inl present ↦ rw (← ok-injective (rw present at h₂)) (
              event_write-IsCommit retention env s cs change true (erasing id) inv
                (event_effect-remove (make_event env false (record s { collections = cs }) change)
                  id named refl refl valid)
                refl)
        ]
