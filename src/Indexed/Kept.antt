-- ===== src/Indexed/Kept.antt =====
-- An index follows the collection that it is made for (src/indexed.js: DocumentIndex,
-- #updateIndexes).
use syncio.Base.{
  ◌≡◌, refl, sym, ap, subst, ◌∙◌, String, Bool, true, false, not, ◌&&◌, ◌||◌, Option, none, some,
  List, ok, Bool-cases, Option-cases, inl, inr, ok-injective, arith, ◌==◌, eq_iff, if◌then◌else◌,
}
use syncio.Base.Maps.{Map, get, put, delete, get-put, get-delete}
use syncio.Json.{Value, null, str, truthy, property}
use syncio.Database.State.{Collection}
use syncio.Indexed.{
  Definition, Index, add_under, remove_under, entry_key, add_document, remove_document,
  update_index, clear_index,
}
use syncio.Indexed.Listed.{lists, lists-file, lists-unfile}

-- Whether a key is that of a document, if there is one.
abbrev pub is_key : Option String → String → Bool
is_key none key = false
is_key (some k) key = k == key

add_under-lists :
    (found : Option String) (unique : Bool) (id : String) (index : Index) {next : Index}
    → add_under found unique (str id) index ≡ ok next
    → (key i : String) → lists key i next ≡ (is_key found key && (i == id) || lists key i index)
unfolding add_under
add_under-lists none unique id index added key i = rw (ok-injective added) refl
add_under-lists (some k) unique id index added key i = lists-file unique k id index added key i

remove_under-lists :
    (found : Option String) (id : String) (index : Index) (key i : String)
    → lists key i (remove_under found (str id) index)
      ≡ (not (is_key found key && (i == id)) && lists key i index)
unfolding remove_under
remove_under-lists none id index key i = refl
remove_under-lists (some k) id index key i = lists-unfile k id index key i

module _ (stringify : List Value → String) (d : Definition) where
  abbrev pub filed_under : Option Value → String → Bool
  filed_under none key = false
  filed_under (some document) key = is_key (entry_key stringify d document) key

  -- Under each key stand exactly the identities of the documents that have it.
  unfoldable pub IsListed : Collection → Index → Type 0
  IsListed c index = (key id : String) → lists key id index ≡ filed_under (get id c) key

  pub lists-add :
      (document : Value) (id : String) (index : Index) {next : Index}
      → property "id" document ≡ str id
      → add_document stringify d document index ≡ ok next
      → (key i : String)
      → lists key i next ≡ (filed_under (some document) key && (i == id) || lists key i index)
  unfolding add_document
  lists-add document id index {next} named added key i =
      add_under-lists (entry_key stringify d document) d.unique id index
        (subst (λ v. add_under (entry_key stringify d document) d.unique v index ≡ ok next) named
          added)
        key i

  lists-remove :
      (document : Value) (id : String) (index : Index)
      → property "id" document ≡ str id
      → (key i : String)
      → lists key i (remove_document stringify d document index)
        ≡ (not (filed_under (some document) key && (i == id)) && lists key i index)
  unfolding remove_document
  lists-remove document id index named key i =
      rw named (remove_under-lists (entry_key stringify d document) id index key i)

  -- Filing a document that is new.
  pub add_document-IsListed :
      (c : Collection) (document : Value) (id : String) (index : Index) {next : Index}
      → IsListed c index
      → property "id" document ≡ str id
      → get id c ≡ none
      → add_document stringify d document index ≡ ok next
      → IsListed (put id document c) next
  unfolding IsListed
  add_document-IsListed c document id index listed named new added key i =
      lists-add document id index named added key i ∙ elim (Bool-cases (id == i)) [
        | inl here ↦
            let e : id ≡ i = (eq_iff id i).0 here in
            let absent : get i c ≡ none = subst (λ k. get k c ≡ none) e new in
            let nothing : lists key i index ≡ false =
              listed key i ∙ ap (λ o. filed_under o key) absent in
            rw (get-put id i document c, here, nothing, (eq_iff i id).1 (sym e)) (ground arith)
        | inr apart ↦
            rw (get-put id i document c, apart, listed key i)
              (ground (arith, eq_iff i id, eq_iff id i))
      ]

  pub remove_document-IsListed :
      (c : Collection) (document : Value) (id : String) (index : Index)
      → IsListed c index
      → property "id" document ≡ str id
      → get id c ≡ some document
      → IsListed (delete id c) (remove_document stringify d document index)
  unfolding IsListed
  remove_document-IsListed c document id index listed named there key i =
      lists-remove document id index named key i ∙ elim (Bool-cases (id == i)) [
        | inl here ↦
            let e : id ≡ i = (eq_iff id i).0 here in
            let present : get i c ≡ some document = subst (λ k. get k c ≡ some document) e there in
            let same : lists key i index ≡ filed_under (some document) key =
              listed key i ∙ ap (λ o. filed_under o key) present in
            rw (get-delete id i c, here, same, (eq_iff i id).1 (sym e)) (ground arith)
        | inr apart ↦
            rw (get-delete id i c, apart, listed key i) (ground (arith, eq_iff i id, eq_iff id i))
      ]

  pub IsListed-alike :
      (c e : Collection) (index : Index)
      → ((id : String) → get id c ≡ get id e)
      → IsListed c index
      → IsListed e index
  unfolding IsListed
  IsListed-alike c e index same listed key id =
      listed key id ∙ ap (λ o. filed_under o key) (same id)

-- The record that is stored, or null.
abbrev pub stored : Option Value → Value
stored none = null
stored (some document) = document

-- Every record stands under its identity.
unfoldable pub IsKeyed : Collection → Type 0
IsKeyed c =
    (id : String) (document : Value)
    → get id c ≡ some document
    → (property "id" document ≡ str id) × (truthy document ≡ true)

-- A collection in which a record was written, or one was removed.
abbrev pub changed : String → Option Value → Collection → Collection
changed id none c = delete id c
changed id (some document) c = put id document c

-- What may be written: a record with that identity, or nothing.
abbrev pub HasId : String → Option Value → Type 0
HasId id none = Unit
HasId id (some document) = (property "id" document ≡ str id) × (truthy document ≡ true)

get-deleted : {V : Type 0} (id : String) (c : Map V) → get id (delete id c) ≡ none
get-deleted id c = get-delete id id c ∙ rw ((eq_iff id id).1 refl) refl

delete-missing :
    (id : String) (c : Collection) → get id c ≡ none → (i : String) → get i c ≡ get i (delete id c)
delete-missing id c missing i = elim (Bool-cases (id == i)) [
  | inl here ↦
      rw (get-delete id i c, here) (subst (λ k. get k c ≡ none) ((eq_iff id i).0 here) missing)
  | inr apart ↦ rw (get-delete id i c, apart) refl
]

put-deleted :
    (id : String) (document : Value) (c : Collection) (i : String)
    → get i (put id document (delete id c)) ≡ get i (put id document c)
put-deleted id document c i =
    rw (get-put id i document (delete id c), get-put id i document c, get-delete id i c)
      (ground arith)

module _ (stringify : List Value → String) (d : Definition) where
  clear_index-IsListed :
      (c : Collection) (id : String) (index : Index)
      → IsKeyed c
      → IsListed stringify d c index
      → IsListed stringify d (delete id c) (clear_index stringify d (stored (get id c)) index)
  unfolding clear_index IsKeyed truthy
  clear_index-IsListed c id index keyed listed = elim (Option-cases (get id c)) [
    | inl missing ↦
        rw missing
          (IsListed-alike stringify d c (delete id c) index (delete-missing id c missing) listed)
    | inr (before, old) ↦
        rw (old, (keyed id before old).1)
          (remove_document-IsListed stringify d c before id index listed (keyed id before old).0
            old)
  ]

  -- If each record of a collection stands under its identity and an index lists what the collection
  -- holds, then after a record was written or removed and the index was updated without an error,
  -- from what was there before to what was written, the index lists what the collection holds.
  pub update_index-IsListed :
      (c : Collection) (id : String) (after : Option Value) (index : Index) {next : Index}
      → IsKeyed c
      → IsListed stringify d c index
      → HasId id after
      → update_index stringify d (stored (get id c)) (stored after) index ≡ ok next
      → IsListed stringify d (changed id after c) next
  unfolding update_index truthy
  update_index-IsListed c id none index {next} keyed listed named updated =
      subst (IsListed stringify d (delete id c)) (ok-injective updated)
        (clear_index-IsListed c id index keyed listed)
  update_index-IsListed c id (some document) index {next} keyed listed named updated =
      let cleared : Index = clear_index stringify d (stored (get id c)) index in
      let added : add_document stringify d document cleared ≡ ok next =
        subst (λ b. (if b then add_document stringify d document cleared else ok cleared) ≡ ok next)
          named.1 updated in
      IsListed-alike stringify d (put id document (delete id c)) (put id document c) next
        (put-deleted id document c)
        (add_document-IsListed stringify d (delete id c) document id cleared
          (clear_index-IsListed c id index keyed listed) named.0 (get-deleted id c) added)
