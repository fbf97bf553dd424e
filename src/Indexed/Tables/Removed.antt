-- ===== src/Indexed/Tables/Removed.antt =====
-- The indexes of a collection follow a removal (src/indexed.js: remove).
use syncio.Base.{
  ◌≡◌, refl, sym, ap, subst, ◌∙◌, String, Bool, true, false, ◌&&◌, none, Result, ok, err, >>=-eq-ok,
  ok-injective, ◌==◌, eq_iff, if◌then◌else◌,
}
use syncio.Base.Maps.{get, get-delete}
use syncio.Json.{Value, null, validate_collection_name, validate_id}
use syncio.Json.Checks.{validate_id-eq-ok}
use syncio.Database.State.{Database, collection_of}
use syncio.Database.Events.{Env}
use syncio.Database.Commit.{Io}
use syncio.Database.Collection.{remove, get_record}
use syncio.Database.Writes.{remove-Updated}
use syncio.Control.Transact.{str-injective}
use syncio.Indexed.Catalog.{all_distinct, definition_names, definitions_of}
use syncio.Indexed.Kept.{IsKeyed, stored}
use syncio.Indexed.Tables.{IndexedDatabase, indexes_of, updated}
use syncio.Indexed.Tables.Kept.{IsIndexed, updated-IsIndexed, HasIndexes-alike}
use syncio.Indexed.Tables.Writes.{Platform, indexed_remove, read_before, removed, remove_from}
use syncio.Indexed.Tables.Followed.{found-stored}

and_true : (b : Bool) → (b && true) ≡ b
and_true true = refl
and_true false = refl

module _ (p : Platform) (io : Io) (env : Env) (name : String) (db : IndexedDatabase) where
  removed-IsIndexed :
      (id : String) (before : Value) (r : Result Bool × Database) (existed : Bool)
      → all_distinct (definition_names (definitions_of name db.definitions)) ≡ true
      → IsKeyed (collection_of name db.base.state.collections)
      → IsIndexed p.stringify name db
      → before ≡ stored (get id (collection_of name db.base.state.collections))
      → ((k : String)
          → (b : Bool) → r.0 ≡ ok b
          → get k (collection_of name r.1.state.collections)
            ≡ (if b && id == k then none else get k (collection_of name db.base.state.collections)))
      → (removed p io env name before r db).0 ≡ ok existed
      → IsIndexed p.stringify name (removed p io env name before r db).1
  unfolding removed updated
  removed-IsIndexed id before (err e, base) existed distinct keyed has was is h = cc
  removed-IsIndexed id before (ok false, base) existed distinct keyed has was is h =
      HasIndexes-alike p.stringify (definitions_of name db.definitions)
        (collection_of name db.base.state.collections) (collection_of name base.state.collections)
        (indexes_of name db.indexes) (λ k. sym (is k false refl)) has
  removed-IsIndexed id before (ok true, base) existed distinct keyed has was is h =
      updated-IsIndexed p.stringify name id none before (λ b. null) (ok true, base) db existed
        distinct keyed has was refl tt
        (λ k. get-delete id k (collection_of name db.base.state.collections) ∙ sym (is k true refl))
        h

  remove-same :
      (id_value : Value) (id : String) (existed : Bool)
      → validate_id id_value ≡ ok id
      → (remove p.digest io env name id_value db.base).0 ≡ ok existed
      → (k : String)
      → get k
          (collection_of name (remove p.digest io env name id_value db.base).1.state.collections)
        ≡ (if existed && id == k
            then none
            else get k (collection_of name db.base.state.collections))
  remove-same id_value id existed given done k =
      let (key, named, _, is) = remove-Updated p.digest io env name db.base id_value existed done in
      let same : key ≡ id = str-injective (sym named ∙ (validate_id-eq-ok id_value given).0) in
      is name k
      ∙ rw ((eq_iff name name).1 refl, same)
          (ap
            (λ b.
              if b && id == k then none else get k (collection_of name db.base.state.collections))
            (and_true existed))

  remove_from-ok :
      (r : Result Value) (id_value : Value) (existed : Bool)
      → (remove_from p io env r name id_value db).0 ≡ ok existed
      → (before : Value) × (r ≡ ok before)
        × (remove_from p io env r name id_value db
            ≡ removed p io env name before (remove p.digest io env name id_value db.base) db)
  unfolding remove_from
  remove_from-ok (err e) id_value existed h = cc
  remove_from-ok (ok before) id_value existed h = (before, refl, refl)

  -- If the definitions of a collection have different names, each record stands under its identity,
  -- and every index lists what the collection holds, then so it is after a removal that succeeded,
  -- whether there was a record or not.
  pub indexed_remove-IsIndexed :
      (id_value : Value) (existed : Bool)
      → all_distinct (definition_names (definitions_of name db.definitions)) ≡ true
      → IsKeyed (collection_of name db.base.state.collections)
      → IsIndexed p.stringify name db
      → (indexed_remove p io env name id_value db).0 ≡ ok existed
      → IsIndexed p.stringify name (indexed_remove p io env name id_value db).1
  unfolding indexed_remove read_before get_record
  indexed_remove-IsIndexed id_value existed distinct keyed has h =
      let cs = db.base.state.collections in
      let (before, was, same) =
        remove_from-ok (read_before p io env name id_value db) id_value existed h in
      let (_, _, h₁) = >>=-eq-ok (validate_collection_name name) _ was in
      let (id, given, read_it) = >>=-eq-ok (validate_id id_value) _ h₁ in
      let read_before : before ≡ stored (get id (collection_of name cs)) =
        sym (ok-injective read_it) ∙ found-stored name id cs keyed in
      subst (λ r. IsIndexed p.stringify name r.1) (sym same)
        (removed-IsIndexed id before (remove p.digest io env name id_value db.base) existed distinct
          keyed has read_before (λ k b done. remove-same id_value id b given done k)
          (subst (λ r. r.0 ≡ ok existed) same h))
