-- ===== src/Database/Replication/Replayed.antt =====
-- The event of a foreign change, as recovery replays it (src/index.js: applyReplicationChange,
-- applyEventToState).
use syncio.Base.{
  ℕ, ◌≡◌, ◌⊎◌, refl, sym, ◌∙◌, subst, String, true, [], ◌∷◌, Result, ok, missing_id, >>=-eq-ok,
  require-eq-ok,
}
use syncio.Base.Maps.{Map}
use syncio.Json.{
  Value, str, obj, Fields, get_field, json_fields, truthy, valid_id, validate_id, validate_record,
  validate_collection_name,
}
use syncio.Json.Checks.{validate_record-eq-ok, validate_id-eq-ok}
use syncio.Change.{Change, Event}
use syncio.Database.State.{Collection, State}
use syncio.Database.Events.{Env, append_change, make_event}
use syncio.Database.History.{IsOrdered, IsOrdered-collections}
use syncio.Database.Replay.{store}
use syncio.Database.Same.{Equality, Alike-refl, at}
use syncio.Database.Effects.{Extends, effects}
use syncio.Database.Appended.{next, made, next_lem, next-IsOrdered, append_change-Extends}
use syncio.Database.Decided.{event_effect-write}
use syncio.Database.Replication.{received_change, resolve}

-- An incoming record that passed the checks before the resolver is asked.
pub record IsResolved (incoming : Value) (id : String) : Type 0 where
  pub fields : Fields
  pub incoming_fields : incoming ≡ obj fields
  pub json : json_fields fields ≡ true
  pub named : get_field "id" fields ≡ str id
  pub valid : valid_id id ≡ true

module _ (resolver : Value → Value → Result Value) (legacy : Change → String) where
  pub resolve-IsResolved :
      (collection : Collection) (incoming : Value) (stored : String × Value)
      → resolve resolver legacy collection incoming ≡ ok stored
      → (id : String) × IsResolved incoming id
  unfolding resolve
  resolve-IsResolved collection incoming stored h =
      let (fields, checked, h₁) = >>=-eq-ok (validate_record incoming) _ h in
      let (_, h₂) = require-eq-ok (truthy (get_field "id" fields)) missing_id _ h₁ in
      let (id, given, h₃) = >>=-eq-ok (validate_id (get_field "id" fields)) _ h₂ in
      let (is_obj, json) = validate_record-eq-ok incoming checked in
      let (named, valid) = validate_id-eq-ok (get_field "id" fields) given in
      (
        id,
        record {
          fields = fields;
          incoming_fields = is_obj;
          json = json;
          named = named;
          valid = valid;
        },
      )

  module _ (q : Equality) (retention : ℕ) (env : Env) (c : Change) (s : State) (inv : IsOrdered s)
      (type : (c.type ≡ "insert") ⊎ (c.type ≡ "upsert"))
      (collection : validate_collection_name c.collection ≡ ok tt) where
    abbrev received : Change
    received = received_change resolver legacy env c

    -- The collections that replaying the event of the change leaves.
    abbrev pub replayed_collections : String → Map Collection
    replayed_collections id = store c.collection id c.body s.collections

    abbrev pub event : Map Collection → Event
    event cs = made retention env true (record s { collections = cs }) received

    abbrev pub behind : Map Collection → State
    behind cs = next retention env true (record s { collections = cs }) received

    effects-event :
        (id : String) (cs : Map Collection)
        → IsResolved c.body id
        → effects (event cs ∷ []) s.collections ≡ ok (replayed_collections id)
    unfolding effects append_change make_event
    effects-event id cs r = rw (
        event_effect-write (event cs) id r.fields collection type r.incoming_fields r.json r.named
          r.valid)

    event-same : (cs ds : Map Collection) → event cs ≡ event ds
    unfolding append_change make_event
    event-same cs ds = refl

    pub sequence-same : (cs ds : Map Collection) → (behind cs).sequence ≡ (behind ds).sequence
    sequence-same cs ds =
        (next_lem retention env true (record s { collections = cs }) received).sequence
        ∙ sym (next_lem retention env true (record s { collections = ds }) received).sequence

    pub replayed-Extends :
        (id : String) (cs : Map Collection)
        → IsResolved c.body id
        → Extends q retention s (event cs ∷ []) (behind (replayed_collections id))
    replayed-Extends id cs r =
        subst (λ e. Extends q retention s (e ∷ []) (behind (replayed_collections id)))
          (event-same (replayed_collections id) cs)
          (append_change-Extends retention env true q s (replayed_collections id) received
            (replayed_collections id) (effects-event id (replayed_collections id) r)
            (λ name k. Alike-refl q (at q name k (replayed_collections id))))

    pub replayed-IsOrdered : (id : String) → IsOrdered (behind (replayed_collections id))
    replayed-IsOrdered id =
        next-IsOrdered retention env true (record s { collections = replayed_collections id })
          received (IsOrdered-collections (replayed_collections id) s inv)
