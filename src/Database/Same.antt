-- ===== src/Database/Same.antt =====
-- When two states hold the same database: the same records under the same keys, up to the order of a
-- record's own fields, which isDeepStrictEqual (node:util) does not look at.
use syncio.Base.{◌≡◌, refl, ◌∙◌, String, Bool, true, Option, none, some, if◌then◌else◌, ◌==◌, arith}
use syncio.Base.Maps.{Map, get, put, delete, get-put, get-delete}
use syncio.Json.{Value, str, arr, Items, truthy, property}
use syncio.Database.State.{Collection, State, collection_of}
use syncio.Database.Replay.{store, erase}

-- isDeepStrictEqual, of which the proofs use that it is an equivalence, that a text is equal to itself
-- only and an array to arrays only, and that equal values are truthy alike and have equal properties.
pub record Equality : Type 0 where
  pub deep_equal : Value → Value → Bool
  pub reflexive : (v : Value) → deep_equal v v ≡ true
  pub symmetric : (v w : Value) → deep_equal v w ≡ true → deep_equal w v ≡ true
  pub transitive :
      (u v w : Value) → deep_equal u v ≡ true → deep_equal v w ≡ true → deep_equal u w ≡ true
  pub of_text : (v : Value) (s : String) → deep_equal v (str s) ≡ true → v ≡ str s
  pub of_array :
      (v : Value) (xs : Items) → deep_equal v (arr xs) ≡ true → (ys : Items) × (v ≡ arr ys)
  pub of_truthy : (v w : Value) → deep_equal v w ≡ true → truthy v ≡ truthy w
  pub of_property :
      (k : String) (v w : Value)
      → deep_equal v w ≡ true
      → deep_equal (property k v) (property k w) ≡ true

module _ (q : Equality) where
  abbrev pub Alike : Option Value → Option Value → Type 0
  Alike none none = Unit
  Alike (some v) (some w) = q.deep_equal v w ≡ true
  Alike _ _ = ⊥

  pub Alike-refl : (o : Option Value) → Alike o o
  Alike-refl none = tt
  Alike-refl (some v) = q.reflexive v

  pub Alike-sym : (o p : Option Value) → Alike o p → Alike p o
  Alike-sym none none h = tt
  Alike-sym (some v) (some w) h = q.symmetric v w h
  Alike-sym none (some w) h = h
  Alike-sym (some v) none h = h

  pub Alike-trans : (o p r : Option Value) → Alike o p → Alike p r → Alike o r
  Alike-trans none none none h k = tt
  Alike-trans (some u) (some v) (some w) h k = q.transitive u v w h k
  Alike-trans none none (some w) h k = k
  Alike-trans none (some v) r h k = absurd h
  Alike-trans (some u) none r h k = absurd h
  Alike-trans (some u) (some v) none h k = k

  -- The record under a name and an identity.
  abbrev pub at : String → String → Map Collection → Option Value
  at name id cs = get id (collection_of name cs)

  abbrev pub AlikeMaps : Map Collection → Map Collection → Type 0
  AlikeMaps cs ds = (name id : String) → Alike (at name id cs) (at name id ds)

  pub record Same (s t : State) : Type 0 where
    pub version : s.version ≡ t.version
    pub database_id : s.database_id ≡ t.database_id
    pub sequence : s.sequence ≡ t.sequence
    pub changes : s.changes ≡ t.changes
    pub records : AlikeMaps s.collections t.collections

  pub Same-refl : (s : State) → Same s s
  Same-refl s = record {
    version = refl;
    database_id = refl;
    sequence = refl;
    changes = refl;
    records = λ name id. Alike-refl (at name id s.collections);
  }

  pub Same-trans : {s t u : State} → Same s t → Same t u → Same s u
  Same-trans {s} {t} {u} h k = record {
    version = h.version ∙ k.version;
    database_id = h.database_id ∙ k.database_id;
    sequence = h.sequence ∙ k.sequence;
    changes = h.changes ∙ k.changes;
    records = λ name id.
        Alike-trans (at name id s.collections) (at name id t.collections) (at name id u.collections)
          (h.records name id) (k.records name id);
  }

-- Reading behind a write.
pub get-store :
    (name id : String) (body : Value) (cs : Map Collection) (n k : String)
    → get k (collection_of n (store name id body cs)) ≡ (
        if name == n
        then (if id == k then some body else get k (collection_of name cs))
        else get k (collection_of n cs))
unfolding store collection_of
get-store name id body cs n k = ground (
  arith,
  get-put name n (put id body (collection_of name cs)) cs,
  get-put id k body (collection_of name cs),
)

pub get-erase :
    (name id : String) (cs : Map Collection) (n k : String)
    → get k (collection_of n (erase name id cs)) ≡ (
        if name == n
        then (if id == k then none else get k (collection_of name cs))
        else get k (collection_of n cs))
unfolding erase collection_of
get-erase name id cs n k = ground (
  arith,
  get-put name n (delete id (collection_of name cs)) cs,
  get-delete id k (collection_of name cs),
)
