-- ===== src/Indexed/Rebuilt.antt =====
-- Building an index anew (src/indexed.js: DocumentIndex.rebuild).
use syncio.Base.{
  ◌≡◌, refl, sym, subst, ◌∙◌, String, Bool, true, false, not, ◌&&◌, ◌||◌, Option, none, some, List,
  [], ◌∷◌, ok, Bool-cases, inl, inr, >>=-eq-ok, require-eq-ok, ok-injective, arith, ◌==◌, eq_iff,
}
use syncio.Base.Maps.{get, put, values}
use syncio.Json.{Value, str, property}
use syncio.Document.Runtime.{strict_equal}
use syncio.Document.Project.{is_empty}
use syncio.Database.State.{Collection}
use syncio.Indexed.{
  Definition, Index, has_id, add_id, ids_at, file_id, add_under, entry_key, add_document,
  add_documents, rebuild,
}
use syncio.Indexed.Listed.{lists, same-eq, ids_at-put}
use syncio.Indexed.Kept.{IsListed, IsKeyed, filed_under, lists-add}

-- No key stands twice.
abbrev pub IsMap : Collection → Type 0
IsMap [] = Unit
IsMap ((k, v) ∷ m) = (get k m ≡ none) × IsMap m

get-first : (k : String) (v : Value) (m : Collection) → get k ((k, v) ∷ m) ≡ some v
unfolding get
get-first k v m = rw ((eq_iff k k).1 refl) refl

get-later :
    (k : String) (v : Value) (m : Collection) (i : String) {r : Value}
    → get k m ≡ none
    → get i m ≡ some r
    → get i ((k, v) ∷ m) ≡ some r
unfolding get
get-later k v m i {r} fresh there = elim (Bool-cases (k == i)) [
  | inl here ↦
      let clash : none ≡ some r =
        sym (subst (λ x. get x m ≡ none) ((eq_iff k i).0 here) fresh) ∙ there in
      cc
  | inr apart ↦ rw apart there
]

IsKeyed-tail :
    (k : String) (v : Value) (m : Collection) → get k m ≡ none → IsKeyed ((k, v) ∷ m) → IsKeyed m
unfolding IsKeyed
IsKeyed-tail k v m fresh keyed id document there =
    keyed id document (get-later k v m id fresh there)

AtMostOne : List Value → Type 0
AtMostOne [] = Unit
AtMostOne (id ∷ []) = Unit
AtMostOne (id ∷ other ∷ ids) = ⊥

-- No set has two identities.
IsSingle : Index → Type 0
IsSingle index = (key : String) → AtMostOne (ids_at key index)

IsSingle-empty : IsSingle []
unfolding IsSingle AtMostOne ids_at get
IsSingle-empty key = tt

AtMostOne-same :
    (ids : List Value) (i j : String)
    → AtMostOne ids
    → has_id (str i) ids ≡ true
    → has_id (str j) ids ≡ true
    → i ≡ j
unfolding AtMostOne has_id
AtMostOne-same [] i j one h k = cc
AtMostOne-same (x ∷ []) i j one h k =
    let is_i : x ≡ str i = same-eq i x (ground arith) in
    let is_j : x ≡ str j = same-eq j x (ground arith) in cc
AtMostOne-same (x ∷ y ∷ xs) i j one h k = absurd one

IsSingle-lists :
    (index : Index) (key i j : String)
    → IsSingle index
    → lists key i index ≡ true
    → lists key j index ≡ true
    → i ≡ j
unfolding IsSingle lists
IsSingle-lists index key i j single h k = AtMostOne-same (ids_at key index) i j (single key) h k

AtMostOne-add :
    (id : Value) (ids : List Value)
    → AtMostOne ids
    → not (true && (not (is_empty ids) && not (has_id id ids))) ≡ true
    → AtMostOne (add_id id ids)
unfolding AtMostOne add_id has_id
AtMostOne-add id [] one h = tt
AtMostOne-add id (x ∷ []) one h = elim (Bool-cases (strict_equal id x)) [
  | inl same ↦ rw same tt
  | inr other ↦
      let no : not (not (false || false)) ≡ true =
        subst (λ b. not (not (b || false)) ≡ true) other h in
      cc
]
AtMostOne-add id (x ∷ y ∷ xs) one h = absurd one

add_under-IsSingle :
    (found : Option String) (unique : Bool) (id : Value) (index : Index) {next : Index}
    → unique ≡ true
    → IsSingle index
    → add_under found unique id index ≡ ok next
    → IsSingle next
unfolding add_under file_id IsSingle
add_under-IsSingle none unique id index is_unique single added key =
    subst IsSingle (ok-injective added) single key
add_under-IsSingle (some k) unique id index {next} is_unique single added key =
    let (allowed, done) = require-eq-ok _ _ _ added in
    let one : AtMostOne (add_id id (ids_at k index)) =
      AtMostOne-add id (ids_at k index) (single k) (
        subst
          (λ u.
            not (u && (not (is_empty (ids_at k index)) && not (has_id id (ids_at k index)))) ≡ true)
          is_unique allowed) in
    rw (← ok-injective done, ids_at-put k key (add_id id (ids_at k index)) index)
      (elim (Bool-cases (k == key)) [ inl here ↦ rw here one | inr apart ↦ rw apart (single key) ])

add_under-total :
    (found : Option String) (unique : Bool) (id : Value) (index : Index)
    → unique ≡ false
    → (next : Index) × (add_under found unique id index ≡ ok next)
unfolding add_under file_id
add_under-total none unique id index several = (index, refl)
add_under-total (some key) unique id index several =
    rw several (put key (add_id id (ids_at key index)) index, refl)

module _ (stringify : List Value → String) (d : Definition) where
  add_documents-lists :
      (c : Collection) (index : Index) {next : Index}
      → IsMap c
      → IsKeyed c
      → add_documents stringify d (values c) index ≡ ok next
      → (key i : String)
      → lists key i next ≡ (filed_under stringify d (get i c) key || lists key i index)
  unfolding add_documents IsKeyed get
  add_documents-lists [] index {next} distinct keyed added key i = rw (ok-injective added) refl
  add_documents-lists ((k, v) ∷ m) index {next} distinct keyed added key i =
      let (middle, first, rest) = >>=-eq-ok (add_document stringify d v index) _ added in
      let named : property "id" v ≡ str k = (keyed k v (get-first k v m)).0 in
      add_documents-lists m middle distinct.1 (IsKeyed-tail k v m distinct.0 keyed) rest key i
      ∙ rw (lists-add stringify d v k index named first key i) (elim (Bool-cases (k == i)) [
        | inl here ↦
            let absent : get i m ≡ none =
              subst (λ x. get x m ≡ none) ((eq_iff k i).0 here) distinct.0 in
            rw (here, absent, (eq_iff i k).1 (sym ((eq_iff k i).0 here))) (ground arith)
        | inr apart ↦ rw apart (ground (arith, eq_iff i k, eq_iff k i))
      ])

  -- If a collection has no key twice and each record stands under its identity, an index that is
  -- rebuilt from it without an error lists what the collection holds.
  pub rebuild-IsListed :
      (c : Collection) {index : Index}
      → IsMap c
      → IsKeyed c
      → rebuild stringify d (values c) ≡ ok index
      → IsListed stringify d c index
  unfolding rebuild IsListed lists ids_at get has_id
  rebuild-IsListed c {index} distinct keyed built key i =
      add_documents-lists c [] distinct keyed built key i ∙ ground arith

  -- An index that is not unique is always rebuilt.
  pub rebuild-total :
      (documents : List Value) (index : Index)
      → d.unique ≡ false
      → (next : Index) × (add_documents stringify d documents index ≡ ok next)
  unfolding add_documents add_document
  rebuild-total [] index several = (index, refl)
  rebuild-total (v ∷ vs) index several =
      let (middle, first) =
        add_under-total (entry_key stringify d v) d.unique (property "id" v) index several in
      rw first (rebuild-total vs middle several)

  add_documents-IsSingle :
      (documents : List Value) (index : Index) {next : Index}
      → d.unique ≡ true
      → IsSingle index
      → add_documents stringify d documents index ≡ ok next
      → IsSingle next
  unfolding add_documents add_document
  add_documents-IsSingle [] index unique single added = subst IsSingle (ok-injective added) single
  add_documents-IsSingle (v ∷ vs) index {next} unique single added =
      let (middle, first, rest) = >>=-eq-ok (add_document stringify d v index) _ added in
      add_documents-IsSingle vs middle unique
        (add_under-IsSingle (entry_key stringify d v) d.unique (property "id" v) index unique single
          first)
        rest

  -- No two records have the same key.
  unfoldable pub IsUnique : Collection → Type 0
  IsUnique c =
      (key i j : String)
      → filed_under stringify d (get i c) key ≡ true
      → filed_under stringify d (get j c) key ≡ true
      → i ≡ j

  -- If a collection has no key twice, each record stands under its identity, and a unique index is
  -- rebuilt from it without an error, then no two records of the collection have the same key.
  pub rebuild-IsUnique :
      (c : Collection) {index : Index}
      → IsMap c
      → IsKeyed c
      → d.unique ≡ true
      → rebuild stringify d (values c) ≡ ok index
      → IsUnique c
  unfolding IsUnique IsListed rebuild
  rebuild-IsUnique c {index} distinct keyed unique built key i j first second =
      let listed : IsListed stringify d c index = rebuild-IsListed c distinct keyed built in
      IsSingle-lists index key i j
        (add_documents-IsSingle (values c) [] unique IsSingle-empty built) (listed key i ∙ first)
        (listed key j ∙ second)
