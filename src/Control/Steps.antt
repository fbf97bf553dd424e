-- ===== src/Control/Steps.antt =====
-- What the calls of a transaction did when its work returned (src/index.js: createTransactionApi, as
-- src/control-plane.js uses it).
use syncio.Base.{
  ◌≡◌, refl, sym, ap, subst, ◌∙◌, String, false, inl, inr, Bool-cases, Result, Result-cases, ok,
  err, >>=-eq-ok, require-eq-ok, ok-injective, type_error, if◌then◌else◌, ◌==◌, eq_iff, arith,
}
use syncio.Base.Maps.{Map, get}
use syncio.Json.{
  Value, null, str, obj, Fields, truthy, get_field, validate_record, validate_collection_name,
  validate_id,
}
use syncio.Json.Checks.{validate_id-eq-ok, validate_record-eq-ok}
use syncio.Database.State.{Collection, collection_of}
use syncio.Database.Replay.{store}
use syncio.Database.Collection.{read, some_or_undefined}
use syncio.Database.Transaction.{
  Work, tx_get, tx_put, run_work, get_in, put_in, opened, done, draft_or,
}
use syncio.Database.Transaction.Tracks.{get-touch}
use syncio.Database.Same.{get-store}
use syncio.Control.Records.{or_throw}

-- Naming a collection changes no record.
pub get-opened :
    (name : String) (cs : Map Collection) (n k : String)
    → get k (collection_of n (opened name cs)) ≡ get k (collection_of n cs)
get-opened name cs n k = elim (Result-cases (validate_collection_name name)) [
  | inl (_, good) ↦ rw (opened, good) (get-touch name cs n k)
  | inr (e, bad) ↦ rw (opened, bad)
]

-- The record that a transaction reads, or null.
abbrev pub found : String → String → Map Collection → Value
found name key cs = if truthy (read name key cs) then read name key cs else null

pub read-opened :
    (name : String) (cs : Map Collection) (n k : String) → read n k (opened name cs) ≡ read n k cs
unfolding read
read-opened name cs n k = ap some_or_undefined (get-opened name cs n k)

pub record Got (name : String) (id : Value) (k : Value → Work) (cs : Map Collection) : Type 0 where
  pub key : String
  pub named : id ≡ str key
  pub runs :
      run_work (tx_get name id (or_throw k)) cs ≡ run_work (k (found name key cs)) (opened name cs)

get_in-eq-ok :
    (name : String) (id : Value) (cs : Map Collection) (x : Value)
    → get_in name id cs ≡ ok x
    → (key : String) × (id ≡ str key) × (found name key cs ≡ x)
unfolding get_in
get_in-eq-ok name id cs x got =
    let (_, _, h₁) = >>=-eq-ok (validate_collection_name name) _ got in
    let (key, given, done) = >>=-eq-ok (validate_id id) _ h₁ in
    (key, (validate_id-eq-ok id given).0, ok-injective done)

pub tx_get-Got :
    (name : String) (id : Value) (k : Value → Work) (cs : Map Collection) (v : Value)
    → (run_work (tx_get name id (or_throw k)) cs).0 ≡ ok v
    → Got name id k cs
unfolding run_work
tx_get-Got name id k cs v h = elim (Result-cases (get_in name id (opened name cs))) [
  | inr (e, failed) ↦
      let bad = subst (λ r. (run_work (or_throw k r) (opened name cs)).0 ≡ ok v) failed h in cc
  | inl (x, got) ↦
      let (key, is_id, same) = get_in-eq-ok name id (opened name cs) x got in
      let read_same : found name key cs ≡ x = rw (← read-opened name cs name key) same in
      record {
        key = key;
        named = is_id;
        runs =
            ap (λ r. run_work (or_throw k r) (opened name cs)) got
            ∙ ap (λ y. run_work (k y) (opened name cs)) (sym read_same);
      }
]

pub record Put (name : String) (value : Value) (k : Unit {0} → Work) (cs : Map Collection)
    : Type 0 where
  pub key : String
  pub fields : Fields
  pub is_object : value ≡ obj fields
  pub named : get_field "id" fields ≡ str key
  pub runs :
      run_work (tx_put name value (or_throw k)) cs
      ≡ run_work (k tt) (store name key value (opened name cs))

pub put_in-eq-ok :
    (name : String) (value : Value) (cs ds : Map Collection)
    → put_in name value cs ≡ ok ds
    → (key : String) × (fields : Fields) × (value ≡ obj fields)
      × (get_field "id" fields ≡ str key)
      × (store name key value cs ≡ ds)
unfolding put_in
put_in-eq-ok name value cs ds put =
    let (_, _, h₁) = >>=-eq-ok (validate_collection_name name) _ put in
    let (fields, checked, h₂) = >>=-eq-ok (validate_record value) _ h₁ in
    let (_, h₃) = require-eq-ok (truthy (get_field "id" fields)) type_error _ h₂ in
    let (key, given, done) = >>=-eq-ok (validate_id (get_field "id" fields)) _ h₃ in
    (
      key,
      fields,
      (validate_record-eq-ok value checked).0,
      (validate_id-eq-ok (get_field "id" fields) given).0,
      ok-injective done,
    )

pub tx_put-Put :
    (name : String) (value : Value) (k : Unit {0} → Work) (cs : Map Collection) (v : Value)
    → (run_work (tx_put name value (or_throw k)) cs).0 ≡ ok v
    → Put name value k cs
unfolding run_work
tx_put-Put name value k cs v h = elim (Result-cases (put_in name value (opened name cs))) [
  | inr (e, failed) ↦
      let bad =
        subst (λ r. (run_work (or_throw k (done r)) (draft_or (opened name cs) r)).0 ≡ ok v) failed
          h in
      cc
  | inl (ds, put) ↦
      let (key, fields, is_obj, is_id, stored) = put_in-eq-ok name value (opened name cs) ds put in
      record {
        key = key;
        fields = fields;
        is_object = is_obj;
        named = is_id;
        runs =
            ap (λ r. run_work (or_throw k (done r)) (draft_or (opened name cs) r)) put
            ∙ ap (λ es. run_work (k tt) es) (sym stored);
      }
]

-- A record whose identity is known is stored under it.
pub tx_put-run :
    (name : String) (fields : Fields) (key : String) (k : Unit {0} → Work) (cs : Map Collection)
    (v : Value)
    → get_field "id" fields ≡ str key
    → (run_work (tx_put name (obj fields) (or_throw k)) cs).0 ≡ ok v
    → run_work (tx_put name (obj fields) (or_throw k)) cs
      ≡ run_work (k tt) (store name key (obj fields) (opened name cs))
tx_put-run name fields key k cs v named h =
    let put = tx_put-Put name (obj fields) k cs v h in
    let same_fields : put.fields ≡ fields = obj-injective (sym put.is_object) in
    let same_key : put.key ≡ key =
      str-injective (sym put.named ∙ ap (get_field "id") same_fields ∙ named) in
    put.runs ∙ ap (λ i. run_work (k tt) (store name i (obj fields) (opened name cs))) same_key
  where
    obj-injective : {fs gs : Fields} → obj fs ≡ obj gs → fs ≡ gs
    obj-injective h = cc

    str-injective : {s t : String} → str s ≡ str t → s ≡ t
    str-injective h = cc

-- Reading in a collection that was written last, and in one that was written before another.
pub read-store :
    (name key : String) (v : Value) (cs : Map Collection) → read name key (store name key v cs) ≡ v
unfolding read
read-store name key v cs =
    ap some_or_undefined (get-store name key v cs name key)
    ∙ ground (arith, eq_iff name name, eq_iff key key)

pub read-store_other :
    (name key : String) (v : Value) (cs : Map Collection) (n k : String)
    → (name == n) ≡ false
    → read n k (store name key v cs) ≡ read n k cs
unfolding read
read-store_other name key v cs n k other =
    ap some_or_undefined (rw other at (get-store name key v cs n k))

-- A call whose error is not caught did not fail.
pub or_throw-run :
    {A : Type 0} (r : Result A) (k : A → Work) (cs : Map Collection) (v : Value)
    → (run_work (or_throw k r) cs).0 ≡ ok v
    → (a : A) × (r ≡ ok a) × (run_work (or_throw k r) cs ≡ run_work (k a) cs)
unfolding run_work
or_throw-run (ok a) k cs v h = (a, refl, refl)
or_throw-run (err e) k cs v h = cc

pub truthy-found :
    (name key : String) (cs : Map Collection)
    → truthy (found name key cs) ≡ truthy (read name key cs)
unfolding truthy
truthy-found name key cs = elim (Bool-cases (truthy (read name key cs))) [
  | inl yes_there ↦ rw yes_there yes_there
  | inr not_there ↦ rw not_there
]
