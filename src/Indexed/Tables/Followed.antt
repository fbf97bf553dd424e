-- ===== src/Indexed/Tables/Followed.antt =====
-- The indexes of a collection follow the writes (src/indexed.js: insert, upsert, remove).
use syncio.Base.{
  ◌≡◌, refl, sym, ap, subst, ◌∙◌, String, true, false, Option-cases, some, Result, ok, err,
  >>=-eq-ok, require-eq-ok, ok-injective, inl, inr, eq_iff, type_error, if◌then◌else◌,
}
use syncio.Base.Maps.{Map, get, put, get-put}
use syncio.Json.{
  Value, null, str, obj, get_field, truthy, property, validate_collection_name, validate_record,
  validate_id,
}
use syncio.Json.Checks.{validate_id-eq-ok, validate_record-eq-ok}
use syncio.Database.State.{Collection, collection_of}
use syncio.Database.Events.{Env}
use syncio.Database.Commit.{Io}
use syncio.Database.Collection.{insert, upsert, read, get_record, decide_upsert}
use syncio.Database.Kept.{perform-done}
use syncio.Database.Writes.{Updated, insert-Updated, upsert-Updated}
use syncio.Control.Transact.{str-injective}
use syncio.Indexed.Catalog.{all_distinct, definition_names, definitions_of}
use syncio.Indexed.Kept.{IsKeyed, stored}
use syncio.Indexed.Tables.{
  IndexedDatabase, has_unique_index, updated, insert_work, upsert_work, record_of,
}
use syncio.Indexed.Tables.Kept.{IsIndexed, updated-IsIndexed, updated-from}
use syncio.Indexed.Tables.Writes.{
  Platform, indexed_insert, indexed_upsert, before_upsert, read_before, guarded_transaction,
  upsert_from,
}

property-truthy : (v : Value) {id : String} → property "id" v ≡ str id → truthy v ≡ true
unfolding property truthy
property-truthy (obj fs) h = refl
property-truthy _ h = cc

-- What is read of a collection whose records stand under their identities.
pub found-stored :
    (name id : String) (cs : Map Collection)
    → IsKeyed (collection_of name cs)
    → (if truthy (read name id cs) then read name id cs else null)
      ≡ stored (get id (collection_of name cs))
unfolding read IsKeyed truthy
found-stored name id cs keyed = elim (Option-cases (get id (collection_of name cs))) [
  | inl missing ↦ rw missing refl
  | inr (document, there) ↦ rw (there, (keyed id document there).1) refl
]

written-same :
    (name id : String) (document : Value) (before after : Map Collection)
    → Updated name id (some document) before after
    → (k : String)
    → get k (put id document (collection_of name before)) ≡ get k (collection_of name after)
written-same name id document before after is k =
    get-put id k document (collection_of name before)
    ∙ sym (is name k ∙ rw ((eq_iff name name).1 refl) refl)

module _ (p : Platform) (io : Io) (env : Env) (name : String) (db : IndexedDatabase) where
  written : Value → Result Value × IndexedDatabase
  written value =
      updated p.stringify name null (λ v. v) (insert p.digest io env name value db.base) db

  -- If the definitions of a collection have different names and none is unique, each record stands
  -- under its identity, and every index lists what the collection holds, then so it is after an
  -- insertion that succeeded.
  pub indexed_insert-IsIndexed :
      (value v : Value)
      → has_unique_index (definitions_of name db.definitions) ≡ false
      → all_distinct (definition_names (definitions_of name db.definitions)) ≡ true
      → IsKeyed (collection_of name db.base.state.collections)
      → IsIndexed p.stringify name db
      → (indexed_insert p io env name value db).0 ≡ ok v
      → IsIndexed p.stringify name (indexed_insert p io env name value db).1
  unfolding indexed_insert written
  indexed_insert-IsIndexed value v plain distinct keyed has h =
      let same : indexed_insert p io env name value db ≡ written value =
        ap
          (λ b.
            if b
            then guarded_transaction p io env (insert_work name (record_of env value)) db
            else written value)
          plain in
      let h' : (written value).0 ≡ ok v = subst (λ r. r.0 ≡ ok v) same h in
      subst (λ r. IsIndexed p.stringify name r.1) (sym same)
        (let done =
            updated-from p.stringify name null (λ v. v) (insert p.digest io env name value db.base)
              db v h' in
          let (id, named, fresh, is) = insert-Updated p.digest io env name db.base value v done in
          let cs = db.base.state.collections in
          let absent : null ≡ stored (get id (collection_of name cs)) =
            sym (ap (λ b. if b then read name id cs else null) fresh)
            ∙ found-stored name id cs keyed in
          updated-IsIndexed p.stringify name id (some v) null (λ v. v)
            (insert p.digest io env name value db.base) db v distinct keyed has absent refl
            (named, property-truthy v named)
            (written-same name id v cs
              (insert p.digest io env name value db.base).1.state.collections is)
            h')

  upsert-named :
      (value v : Value)
      → (upsert p.digest io env name value db.base).0 ≡ ok v
      → truthy (property "id" value) ≡ true
  unfolding upsert decide_upsert property
  upsert-named value v h =
      let (w, decided, _, _) =
        perform-done p.digest io
          (decide_upsert db.base.change_retention env name value db.base.state) db.base v h in
      let (_, _, h₁) = >>=-eq-ok (validate_collection_name name) _ decided in
      let (fields, checked, h₂) = >>=-eq-ok (validate_record value) _ h₁ in
      let (named, _) = require-eq-ok (truthy (get_field "id" fields)) type_error _ h₂ in
      rw ((validate_record-eq-ok value checked).0) named

  -- What is read before an upsertion of a record with that identity.
  before-stored :
      (value before : Value) (id : String)
      → IsKeyed (collection_of name db.base.state.collections)
      → truthy (property "id" value) ≡ true
      → property "id" value ≡ str id
      → before_upsert p io env name value db ≡ ok before
      → before ≡ stored (get id (collection_of name db.base.state.collections))
  unfolding before_upsert read_before get_record
  before-stored value before id keyed there named h =
      let (_, _, h₁) = >>=-eq-ok (validate_collection_name name) _ (rw there at h) in
      let (key, given, done) = >>=-eq-ok (validate_id (property "id" value)) _ h₁ in
      let same : key ≡ id =
        str-injective (sym (validate_id-eq-ok (property "id" value) given).0 ∙ named) in
      sym (ok-injective done)
      ∙ ap
          (λ k.
            if truthy (read name k db.base.state.collections)
            then read name k db.base.state.collections
            else null)
          same
      ∙ found-stored name id db.base.state.collections keyed

  upsert_from-ok :
      (r : Result Value) (value v : Value)
      → (upsert_from p io env r name value db).0 ≡ ok v
      → (before : Value) × (r ≡ ok before)
        × ((updated p.stringify name before
              (λ v. v)
              (upsert p.digest io env name value db.base)
              db).0
            ≡ ok v)
        × (upsert_from p io env r name value db
            ≡ updated p.stringify name before
                (λ v. v)
                (upsert p.digest io env name value db.base)
                db)
  unfolding upsert_from
  upsert_from-ok (err e) value v h = cc
  upsert_from-ok (ok before) value v h = (before, refl, h, refl)

  -- If the definitions of a collection have different names and none is unique, each record stands
  -- under its identity, and every index lists what the collection holds, then so it is after an
  -- upsertion that succeeded, whether the record is new or was there with other values.
  pub indexed_upsert-IsIndexed :
      (value v : Value)
      → has_unique_index (definitions_of name db.definitions) ≡ false
      → all_distinct (definition_names (definitions_of name db.definitions)) ≡ true
      → IsKeyed (collection_of name db.base.state.collections)
      → IsIndexed p.stringify name db
      → (indexed_upsert p io env name value db).0 ≡ ok v
      → IsIndexed p.stringify name (indexed_upsert p io env name value db).1
  unfolding indexed_upsert
  indexed_upsert-IsIndexed value v plain distinct keyed has h =
      let cs = db.base.state.collections in
      let chosen : indexed_upsert p io env name value db
          ≡ upsert_from p io env (before_upsert p io env name value db) name value db =
        ap
          (λ b.
            if b
            then guarded_transaction p io env (upsert_work name value) db
            else upsert_from p io env (before_upsert p io env name value db) name value db)
          plain in
      let (before, was, h', same) =
        upsert_from-ok (before_upsert p io env name value db) value v
          (subst (λ r. r.0 ≡ ok v) chosen h) in
      let done =
        updated-from p.stringify name before (λ v. v) (upsert p.digest io env name value db.base) db
          v h' in
      let (id, is_value, named, is) = upsert-Updated p.digest io env name db.base value v done in
      let read_before : before ≡ stored (get id (collection_of name cs)) =
        before-stored value before id keyed (upsert-named value v done) named was in
      subst (λ r. IsIndexed p.stringify name r.1) (sym (chosen ∙ same))
        (updated-IsIndexed p.stringify name id (some value) before (λ v. v)
          (upsert p.digest io env name value db.base) db v distinct keyed has read_before is_value
          (named, property-truthy value named)
          (written-same name id value cs
            (upsert p.digest io env name value db.base).1.state.collections is)
          h')
