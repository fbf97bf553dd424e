-- ===== src/Database/Writes.antt =====
-- What the writes leave in memory (src/index.js: insert, upsert, remove, transaction).
use syncio.Base.{
  ℕ, ◌≡◌, refl, sym, ap, ◌∙◌, String, Bool, true, false, not, ◌&&◌, inl, inr, Bool-cases, Option,
  none, some, ok, record_exists, type_error, >>=-eq-ok, require-eq-ok, ok-injective, ◌==◌, eq_iff,
  if◌then◌else◌, arith,
}
use syncio.Base.Maps.{Map, get}
use syncio.Json.{
  Value, undefined, str, obj, get_field, set_field, truthy, property, validate_id, validate_record,
  validate_collection_name,
}
use syncio.Json.Checks.{get_field-set_field_self, validate_record-eq-ok, validate_id-eq-ok}
use syncio.Change.{Change}
use syncio.Wal.{Payload}
use syncio.Database.State.{Collection, State, Database, collection_of}
use syncio.Database.Events.{Env}
use syncio.Database.Replay.{store, erase}
use syncio.Database.Same.{get-store, get-erase}
use syncio.Database.Appended.{next_lem}
use syncio.Database.Commit.{Io}
use syncio.Database.Collection.{
  Write, event_write, local_change, read, id_or, decide_insert, decide_upsert, decide_remove,
  insert, upsert, remove,
}
use syncio.Database.Kept.{kept_by, perform-done}

-- The records of `cs`, with `new` under one name and identity.
abbrev pub Updated : String → String → Option Value → Map Collection → Map Collection → Type 0
Updated name id new before after =
    (n k : String)
    → get k (collection_of n after) ≡ (
        if name == n
        then (if id == k then new else get k (collection_of name before))
        else get k (collection_of n before))

event_write-collections :
    {A : Type 0} (digest : Payload → String) (io : Io) (retention : ℕ) (env : Env) (db : Database)
    (cs : Map Collection) (change : Change) (result : A)
    → (kept_by digest io (event_write retention env db.state cs change result) db).collections ≡ cs
unfolding event_write
event_write-collections digest io retention env db cs change result =
    (next_lem retention env false (record db.state { collections = cs }) change).collections

erased_if :
    (b : Bool) (name id : String) (cs : Map Collection) (n k : String)
    → get k (collection_of n (if b then erase name id cs else cs))
      ≡ (if b && name == n && id == k then none else get k (collection_of n cs))
erased_if true name id cs n k = elim (Bool-cases (name == n)) [
  | inr other ↦ get-erase name id cs n k ∙ rw other
  | inl this ↦ get-erase name id cs n k ∙ rw (this, (eq_iff name n).0 this)
]
erased_if false name id cs n k = refl

module _ (digest : Payload → String) (io : Io) (env : Env) (name : String) (db : Database) where
  decide_insert-done :
      (value : Value) (w : Write Value)
      → decide_insert db.change_retention env name value db.state ≡ ok w
      → (id : String) × (property "id" w.result ≡ str id)
        × (truthy (read name id db.state.collections) ≡ false)
        × ((kept_by digest io w db).collections ≡ store name id w.result db.state.collections)
  unfolding decide_insert property event_write
  decide_insert-done value w h =
      let (_, named, h₁) = >>=-eq-ok (validate_collection_name name) _ h in
      let (fields, checked, h₂) = >>=-eq-ok (validate_record value) _ h₁ in
      let (id, given, h₃) =
        >>=-eq-ok (validate_id (id_or env.record_id (get_field "id" fields))) _ h₂ in
      let (new, h₄) =
        require-eq-ok (not (truthy (read name id db.state.collections))) record_exists _ h₃ in
      let body : Value = obj (set_field "id" (str id) fields) in
      let cs : Map Collection = store name id body db.state.collections in
      let change : Change = local_change name "insert" id body in
      rw (← ok-injective h₄) (
        id,
        get_field-set_field_self "id" (str id) fields,
        ground (arith, new),
        event_write-collections digest io db.change_retention env db cs change body,
      )

  -- A successful insertion gives a record with an identity under which there was none, and stores it
  -- there; every other record stays as it was.
  pub insert-Updated :
      (value v : Value)
      → (insert digest io env name value db).0 ≡ ok v
      → (id : String) × (property "id" v ≡ str id)
        × (truthy (read name id db.state.collections) ≡ false)
        × Updated name id
            (some v)
            db.state.collections
            (insert digest io env name value db).1.state.collections
  unfolding insert
  insert-Updated value v h =
      let (w, decided, result, state) =
        perform-done digest io (decide_insert db.change_retention env name value db.state) db v h in
      let (id, named, new, cs) = decide_insert-done value w decided in
      (
        id,
        rw result named,
        new,
        λ n k.
            ap (λ (s : State). get k (collection_of n s.collections)) state
            ∙ ap (λ m. get k (collection_of n m)) cs
            ∙ rw result (get-store name id w.result db.state.collections n k),
      )

  decide_upsert-done :
      (value : Value) (w : Write Value)
      → decide_upsert db.change_retention env name value db.state ≡ ok w
      → (id : String) × (w.result ≡ value)
        × (property "id" value ≡ str id)
        × ((kept_by digest io w db).collections ≡ store name id value db.state.collections)
  unfolding decide_upsert property event_write
  decide_upsert-done value w h =
      let (_, named, h₁) = >>=-eq-ok (validate_collection_name name) _ h in
      let (fields, checked, h₂) = >>=-eq-ok (validate_record value) _ h₁ in
      let (_, h₃) = require-eq-ok (truthy (get_field "id" fields)) type_error _ h₂ in
      let (id, given, h₄) = >>=-eq-ok (validate_id (get_field "id" fields)) _ h₃ in
      let cs : Map Collection = store name id value db.state.collections in
      let change : Change = local_change name "upsert" id value in
      rw (← ok-injective h₄) (
        id,
        refl,
        ap (property "id") (validate_record-eq-ok value checked).0
            ∙ (validate_id-eq-ok (get_field "id" fields) given).0,
        event_write-collections digest io db.change_retention env db cs change value,
      )

  -- A successful upsertion gives back its record and stores it under its identity; every other record
  -- stays as it was.
  pub upsert-Updated :
      (value v : Value)
      → (upsert digest io env name value db).0 ≡ ok v
      → (id : String) × (v ≡ value)
        × (property "id" value ≡ str id)
        × Updated name id
            (some value)
            db.state.collections
            (upsert digest io env name value db).1.state.collections
  unfolding upsert
  upsert-Updated value v h =
      let (w, decided, result, state) =
        perform-done digest io (decide_upsert db.change_retention env name value db.state) db v h in
      let (id, same, named, cs) = decide_upsert-done value w decided in
      (
        id,
        result ∙ same,
        named,
        λ n k.
            ap (λ (s : State). get k (collection_of n s.collections)) state
            ∙ ap (λ m. get k (collection_of n m)) cs
            ∙ get-store name id value db.state.collections n k,
      )

  decide_remove-done :
      (id_value : Value) (w : Write Bool)
      → decide_remove db.change_retention env name id_value db.state ≡ ok w
      → (id : String) × (id_value ≡ str id)
        × (w.result ≡ truthy (read name id db.state.collections))
        × ((kept_by digest io w db).collections
            ≡ (if w.result then erase name id db.state.collections else db.state.collections))
  unfolding decide_remove event_write
  decide_remove-done id_value w h =
      let (_, named, h₁) = >>=-eq-ok (validate_collection_name name) _ h in
      let (id, given, h₂) = >>=-eq-ok (validate_id id_value) _ h₁ in
      let cs : Map Collection = erase name id db.state.collections in
      let change : Change = local_change name "remove" id undefined in
      elim (Bool-cases (truthy (read name id db.state.collections))) [
        | inl there ↦ rw (← ok-injective (rw there at h₂)) (
          id,
          (validate_id-eq-ok id_value given).0,
          sym there,
          event_write-collections digest io db.change_retention env db cs change true,
        )
        | inr absent ↦
            rw (← ok-injective (rw absent at h₂))
              (id, (validate_id-eq-ok id_value given).0, sym absent, refl)
      ]

  -- A successful removal tells whether there was a record under the identity. If there was, it is no
  -- longer there; every other record stays as it was, and so do all if there was none.
  pub remove-Updated :
      (id_value : Value) (existed : Bool)
      → (remove digest io env name id_value db).0 ≡ ok existed
      → (id : String) × (id_value ≡ str id)
        × (existed ≡ truthy (read name id db.state.collections))
        × ((n k : String)
            → get k (collection_of n (remove digest io env name id_value db).1.state.collections)
              ≡ (if existed && name == n && id == k
                  then none
                  else get k (collection_of n db.state.collections)))
  unfolding remove
  remove-Updated id_value existed h =
      let (w, decided, result, state) =
        perform-done digest io (decide_remove db.change_retention env name id_value db.state) db
          existed h in
      let (id, named, was, cs) = decide_remove-done id_value w decided in
      (
        id,
        named,
        result ∙ was,
        λ n k.
            ap (λ (s : State). get k (collection_of n s.collections)) state
            ∙ ap (λ m. get k (collection_of n m)) cs
            ∙ ap
                (λ b. get k (
                  collection_of n
                    (if b then erase name id db.state.collections else db.state.collections)))
                (sym result)
            ∙ erased_if existed name id db.state.collections n k,
      )
