-- ===== src/Indexed/Tables/Kept.antt =====
-- Every index of a collection follows it (src/indexed.js: #updateIndexes, insert, upsert, remove).
use syncio.Base.{
  ◌≡◌, refl, sym, ap, subst, ◌∙◌, String, Bool, true, false, Option, some, List, [], ◌∷◌, Result,
  ok, err, >>=-eq-ok, ok-injective, any, All, arith, ◌==◌, eq_iff,
}
use syncio.Base.Maps.{Map, get, put, get-put}
use syncio.Json.{Value}
use syncio.Database.State.{Collection, Database, collection_of}
use syncio.Indexed.{Definition, Index, update_index}
use syncio.Indexed.Catalog.{all_distinct, definition_names, definitions_of}
use syncio.Indexed.Kept.{
  IsListed, IsListed-alike, IsKeyed, HasId, stored, changed, update_index-IsListed,
}
use syncio.Indexed.Tables.{
  IndexedDatabase, indexes_of, or_no_indexes, update_named, update_indexes, with_indexes, updated,
}

abbrev is_among : String → List String → Bool
is_among name names = any (λ other. name == other) names

get-put_self : {V : Type 0} (name : String) (v : V) (m : Map V) → get name (put name v m) ≡ some v
get-put_self name v m = get-put name name v m ∙ rw ((eq_iff name name).1 refl) refl

get-put_other :
    {V : Type 0} (name n : String) (v : V) (m : Map V)
    → (name == n) ≡ false
    → get n (put name v m) ≡ get n m
get-put_other name n v m apart = get-put name n v m ∙ rw apart refl

module _ (stringify : List Value → String) where
  -- For each definition there is an index, which lists what the collection holds.
  abbrev pub HasIndexes : List Definition → Collection → Map Index → Type 0
  HasIndexes ds c indexes =
      All
        (λ (d : Definition).
          (index : Index) × (get d.name indexes ≡ some index) × IsListed stringify d c index)
        ds

  HasIndexes-put :
      (ds : List Definition) (c : Collection) (indexes : Map Index) (name : String) (index : Index)
      → is_among name (definition_names ds) ≡ false
      → HasIndexes ds c indexes
      → HasIndexes ds c (put name index indexes)
  HasIndexes-put [] c indexes name index apart has = tt
  HasIndexes-put (d ∷ ds) c indexes name index apart has =
      let other : (name == d.name) ≡ false = ground arith in
      (
        (has.0.0, get-put_other name d.name index indexes other ∙ has.0.1, has.0.2),
        HasIndexes-put ds c indexes name index (ground arith) has.1,
      )

  pub HasIndexes-alike :
      (ds : List Definition) (c e : Collection) (indexes : Map Index)
      → ((id : String) → get id c ≡ get id e)
      → HasIndexes ds c indexes
      → HasIndexes ds e indexes
  HasIndexes-alike [] c e indexes same has = tt
  HasIndexes-alike (d ∷ ds) c e indexes same has = (
    (has.0.0, has.0.1, IsListed-alike stringify d c e has.0.0 same has.0.2),
    HasIndexes-alike ds c e indexes same has.1,
  )

  update_named-some :
      (d : Definition) (before after : Value) (index : Index) (indexes next : Map Index)
      → update_named stringify (some index) d before after indexes ≡ ok next
      → (made : Index) × (update_index stringify d before after index ≡ ok made)
        × (put d.name made indexes ≡ next)
  unfolding update_named
  update_named-some d before after index indexes next h =
      let (made, first, done) = >>=-eq-ok (update_index stringify d before after index) _ h in
      (made, first, ok-injective done)

  -- The indexes of definitions with different names, behind a write.
  update_indexes-HasIndexes :
      (ds : List Definition) (c : Collection) (id : String) (after : Option Value)
      (indexes next : Map Index)
      → all_distinct (definition_names ds) ≡ true
      → IsKeyed c
      → HasId id after
      → HasIndexes ds c indexes
      → update_indexes stringify ds (stored (get id c)) (stored after) indexes ≡ ok next
      → HasIndexes ds (changed id after c) next
        × ((n : String) → is_among n (definition_names ds) ≡ false → get n next ≡ get n indexes)
  unfolding update_indexes all_distinct
  update_indexes-HasIndexes [] c id after indexes next distinct keyed named has h =
      (tt, λ n apart. ap (get n) (sym (ok-injective h)))
  update_indexes-HasIndexes (d ∷ ds) c id after indexes next distinct keyed named has h =
      let (index, here, listed) = has.0 in
      let before = stored (get id c) in
      let (middle, first, rest) =
        >>=-eq-ok (update_named stringify (get d.name indexes) d before (stored after) indexes) _
          h in
      let (made, index_updated, is_middle) =
        update_named-some d before (stored after) index indexes middle (
          subst (λ o. update_named stringify o d before (stored after) indexes ≡ ok middle) here
            first) in
      let apart : is_among d.name (definition_names ds) ≡ false = ground arith in
      let (tail, keeps) =
        update_indexes-HasIndexes ds c id after middle next (ground arith) keyed named
          (subst (HasIndexes ds c) is_middle (HasIndexes-put ds c indexes d.name made apart has.1))
          rest in
      let placed : get d.name middle ≡ some made =
        subst (λ m. get d.name m ≡ some made) is_middle (get-put_self d.name made indexes) in
      (
        (
          (
            made,
            keeps d.name apart ∙ placed,
            update_index-IsListed stringify d c id after index keyed listed named index_updated,
          ),
          tail,
        ),
        λ n others.
            keeps n (ground arith)
            ∙ subst (λ m. get n m ≡ get n indexes) is_middle
                (get-put_other d.name n made indexes
                  (ground (arith, eq_iff n d.name, eq_iff d.name n))),
      )

  -- Each definition of a collection has an index that lists what the base holds.
  abbrev pub IsIndexed : String → IndexedDatabase → Type 0
  IsIndexed name db =
      HasIndexes (definitions_of name db.definitions) (collection_of name db.base.state.collections)
        (indexes_of name db.indexes)

  indexes_of-put :
      (name : String) (made : Map Index) (indexes : Map (Map Index))
      → indexes_of name (put name made indexes) ≡ made
  indexes_of-put name made indexes = ap or_no_indexes (get-put_self name made indexes)

  with_indexes-ok :
      {A : Type 0} (name : String) (result v : A) (base : Database) (db : IndexedDatabase)
      (r : Result (Map Index))
      → (with_indexes stringify name result base db r).0 ≡ ok v
      → (result ≡ v)
        × (made : Map Index) × (r ≡ ok made)
        × ((with_indexes stringify name result base db r).1
            ≡ record db { base = base; indexes = put name made db.indexes })
  unfolding with_indexes
  with_indexes-ok name result v base db (err e) h = cc
  with_indexes-ok name result v base db (ok made) h = (ok-injective h, made, refl, refl)

  pub updated-IsIndexed :
      {A : Type 0} (name id : String) (new : Option Value) (before : Value) (after : A → Value)
      (r : Result A × Database) (db : IndexedDatabase) (v : A)
      → all_distinct (definition_names (definitions_of name db.definitions)) ≡ true
      → IsKeyed (collection_of name db.base.state.collections)
      → IsIndexed name db
      → before ≡ stored (get id (collection_of name db.base.state.collections))
      → after v ≡ stored new
      → HasId id new
      → ((k : String)
          → get k (changed id new (collection_of name db.base.state.collections))
            ≡ get k (collection_of name r.1.state.collections))
      → (updated stringify name before after r db).0 ≡ ok v
      → IsIndexed name (updated stringify name before after r db).1
  unfolding updated
  updated-IsIndexed name id new before after (err e, base) db v distinct keyed has read gives named
        same h =
      cc
  updated-IsIndexed name id new before after (ok result, base) db v distinct keyed has read gives
        named same h =
      let definitions = definitions_of name db.definitions in
      let c = collection_of name db.base.state.collections in
      let (is_v, made, written, state) =
        with_indexes-ok name result v base db
          (update_indexes stringify definitions before (after result) (indexes_of name db.indexes))
          h in
      let (follow, _) =
        update_indexes-HasIndexes definitions c id new (indexes_of name db.indexes) made distinct
          keyed named has (rw (← read, ← gives, ← is_v) written) in
      rw (state, indexes_of-put name made db.indexes)
        (HasIndexes-alike definitions (changed id new c) (collection_of name base.state.collections)
          made same follow)

  pub updated-from :
      {A : Type 0} (name : String) (before : Value) (after : A → Value) (r : Result A × Database)
      (db : IndexedDatabase) (v : A)
      → (updated stringify name before after r db).0 ≡ ok v
      → r.0 ≡ ok v
  unfolding updated
  updated-from name before after (err e, base) db v h = cc
  updated-from name before after (ok result, base) db v h =
      ap ok (with_indexes-ok name result v base db _ h).0
