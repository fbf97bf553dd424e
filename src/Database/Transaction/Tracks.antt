-- ===== src/Database/Transaction/Tracks.antt =====
-- What a transaction's work can have changed (src/index.js: createTransactionApi).
use syncio.Base.{
  ◌≡◌, ◌⊎◌, refl, subst, String, true, inl, inr, Bool-cases, Result-cases, Option, none, some,
  Result, ok, err, >>=-eq-ok, require-eq-ok, ok-injective, type_error, arith, ◌==◌, eq_iff,
  if◌then◌else◌,
}
use syncio.Base.Maps.{Map, get, get-put}
use syncio.Json.{
  Value, str, obj, Fields, get_field, truthy, json_fields, valid_id, validate_id, validate_record,
  validate_collection_name,
}
use syncio.Json.Checks.{validate_record-eq-ok, validate_id-eq-ok}
use syncio.Database.State.{Collection, collection_of}
use syncio.Database.Replay.{store, erase}
use syncio.Database.Same.{get-store, get-erase}
use syncio.Database.Transaction.{
  Work, finish, throw, tx_get, tx_put, tx_remove, tx_all, touch, put_in, remove_in, opened,
  draft_or, run_work,
}

-- A record that a transaction may leave under an identity.
abbrev pub IsRecordOf : String → Option Value → Type 0
IsRecordOf id none = Unit
IsRecordOf id (some v) =
    (fs : Fields) × (v ≡ obj fs) × (json_fields fs ≡ true) × (get_field "id" fs ≡ str id)

-- Under each name and identity, the draft has what the state has, or both are valid and the draft has
-- nothing or a valid record with that identity.
abbrev pub Allowed : Map Collection → String → String → Option Value → Type 0
Allowed before name id o =
    (o ≡ get id (collection_of name before))
    ⊎ ((validate_collection_name name ≡ ok tt) × (valid_id id ≡ true) × IsRecordOf id o)

abbrev pub Tracks : Map Collection → Map Collection → Type 0
Tracks before after =
    (name id : String) → Allowed before name id (get id (collection_of name after))

pub get-touch :
    (name : String) (cs : Map Collection) (n k : String)
    → get k (collection_of n (touch name cs)) ≡ get k (collection_of n cs)
unfolding touch collection_of
get-touch name cs n k = ground (arith, get-put name n (collection_of name cs) cs, eq_iff name n)

module _ (before : Map Collection) where
  touch-Tracks :
      (name : String) (cs : Map Collection) → Tracks before cs → Tracks before (touch name cs)
  touch-Tracks name cs t n k = rw (get-touch name cs n k) (t n k)

  opened-Tracks :
      (name : String) (cs : Map Collection) → Tracks before cs → Tracks before (opened name cs)
  opened-Tracks name cs t = elim (Result-cases (validate_collection_name name)) [
    | inl (_, e) ↦ rw (e, opened) (touch-Tracks name cs t)
    | inr (_, e) ↦ rw (e, opened) t
  ]

  -- A write or a removal of one valid record is allowed, and the rest stays as it was.
  write-Tracks :
      (name id : String) (new : Option Value) (cs : Map Collection) (n k : String)
      → validate_collection_name name ≡ ok tt
      → valid_id id ≡ true
      → IsRecordOf id new
      → Tracks before cs
      → Allowed before n k (
          if name == n
          then (if id == k then new else get k (collection_of name cs))
          else get k (collection_of n cs))
  write-Tracks name id new cs n k named valid is_record t = elim (Bool-cases (name == n)) [
    | inr other ↦ rw other (t n k)
    | inl same ↦
        let here : name ≡ n = (eq_iff name n).0 same in
        elim (Bool-cases (id == k)) [
          | inr other ↦
              rw (same, other)
                (subst (λ m. Allowed before m k (get k (collection_of name cs))) here (t name k))
          | inl this ↦
              let that : id ≡ k = (eq_iff id k).0 this in
              rw (same, this)
                (inr (
                  subst (λ m. validate_collection_name m ≡ ok tt) here named,
                  subst (λ i. valid_id i ≡ true) that valid,
                  subst (λ i. IsRecordOf i new) that is_record,
                ))
        ]
  ]

  store-Tracks :
      (name id : String) (fs : Fields) (cs : Map Collection)
      → validate_collection_name name ≡ ok tt
      → valid_id id ≡ true
      → json_fields fs ≡ true
      → get_field "id" fs ≡ str id
      → Tracks before cs
      → Tracks before (store name id (obj fs) cs)
  store-Tracks name id fs cs named valid json is_id t n k =
      rw (get-store name id (obj fs) cs n k)
        (write-Tracks name id (some (obj fs)) cs n k named valid (fs, refl, json, is_id) t)

  erase-Tracks :
      (name id : String) (cs : Map Collection)
      → validate_collection_name name ≡ ok tt
      → valid_id id ≡ true
      → Tracks before cs
      → Tracks before (erase name id cs)
  erase-Tracks name id cs named valid t n k =
      rw (get-erase name id cs n k) (write-Tracks name id none cs n k named valid tt t)

  put_in-Tracks :
      (name : String) (value : Value) (cs ds : Map Collection)
      → put_in name value cs ≡ ok ds
      → Tracks before cs
      → Tracks before ds
  unfolding put_in
  put_in-Tracks name value cs ds h t =
      let (_, named, h₁) = >>=-eq-ok (validate_collection_name name) _ h in
      let (fields, checked, h₂) = >>=-eq-ok (validate_record value) _ h₁ in
      let (_, h₃) = require-eq-ok (truthy (get_field "id" fields)) type_error _ h₂ in
      let (id, given, h₄) = >>=-eq-ok (validate_id (get_field "id" fields)) _ h₃ in
      let (is_id, valid) = validate_id-eq-ok (get_field "id" fields) given in
      let (is_obj, json) = validate_record-eq-ok value checked in
      rw (← ok-injective h₄) (rw is_obj (store-Tracks name id fields cs named valid json is_id t))

  remove_in-Tracks :
      (name : String) (id_value : Value) (cs ds : Map Collection)
      → remove_in name id_value cs ≡ ok ds
      → Tracks before cs
      → Tracks before ds
  unfolding remove_in
  remove_in-Tracks name id_value cs ds h t =
      let (_, named, h₁) = >>=-eq-ok (validate_collection_name name) _ h in
      let (id, given, h₂) = >>=-eq-ok (validate_id id_value) _ h₁ in
      let (_, valid) = validate_id-eq-ok id_value given in
      rw (← ok-injective h₂) (erase-Tracks name id cs named valid t)

  draft_or-Tracks :
      (cs : Map Collection) (r : Result (Map Collection))
      → ((ds : Map Collection) → r ≡ ok ds → Tracks before ds)
      → Tracks before cs
      → Tracks before (draft_or cs r)
  draft_or-Tracks cs (ok ds) h t = h ds refl
  draft_or-Tracks cs (err e) h t = t

  run_work-from :
      (work : Work) (cs : Map Collection) → Tracks before cs → Tracks before (run_work work cs).1
  unfolding run_work
  run_work-from (finish v) cs t = t
  run_work-from (throw e) cs t = t
  run_work-from (tx_get name id k) cs t =
      run_work-from (k _) (opened name cs) (opened-Tracks name cs t)
  run_work-from (tx_put name value k) cs t =
      run_work-from (k _) (draft_or (opened name cs) (put_in name value (opened name cs))) (
        draft_or-Tracks (opened name cs) (put_in name value (opened name cs))
          (λ ds e. put_in-Tracks name value (opened name cs) ds e (opened-Tracks name cs t))
          (opened-Tracks name cs t))
  run_work-from (tx_remove name id k) cs t =
      run_work-from (k _) (draft_or (opened name cs) (remove_in name id (opened name cs))) (
        draft_or-Tracks (opened name cs) (remove_in name id (opened name cs))
          (λ ds e. remove_in-Tracks name id (opened name cs) ds e (opened-Tracks name cs t))
          (opened-Tracks name cs t))
  run_work-from (tx_all name k) cs t =
      run_work-from (k _) (opened name cs) (opened-Tracks name cs t)

-- Whatever the work of a transaction does, under each name and identity its draft has what the state
-- has, or the name and the identity are valid and the draft has nothing or a valid record with that
-- identity.
pub run_work-Tracks : (work : Work) (cs : Map Collection) → Tracks cs (run_work work cs).1
run_work-Tracks work cs = run_work-from cs work cs (λ name id. inl refl)
