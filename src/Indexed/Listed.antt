-- ===== src/Indexed/Listed.antt =====
-- What an index lists (src/indexed.js: DocumentIndex).
use syncio.Base.{
  ◌≡◌, refl, sym, ap, subst, ◌∙◌, String, Bool, true, false, not, ◌&&◌, ◌||◌, Option, List, [], ◌∷◌,
  ◌++◌, ok, Bool-cases, Option-cases, inl, inr, require-eq-ok, ok-injective, arith, ◌==◌, eq_iff,
  if◌then◌else◌,
}
use syncio.Base.Maps.{get, put, get-put, get-delete}
use syncio.Json.{Value, str}
use syncio.Document.Runtime.{strict_equal}
use syncio.Indexed.{
  Index, has_id, or_empty, unfile_from, add_id, remove_id, ids_at, file_id, keep_ids, unfile_id,
}

-- Whether an identity is among those filed under a key.
unfoldable pub lists : String → String → Index → Bool
lists key id index = has_id (str id) (ids_at key index)

has_id-append :
    (id : Value) (xs ys : List Value) → has_id id (xs ++ ys) ≡ (has_id id xs || has_id id ys)
unfolding has_id
has_id-append id [] ys = refl
has_id-append id (x ∷ xs) ys = ground (arith, has_id-append id xs ys)

pub same-eq : (i : String) (x : Value) → strict_equal (str i) x ≡ true → x ≡ str i
unfolding strict_equal
same-eq i (str s) h = ap str (sym ((eq_iff i s).0 h))
same-eq i _ h = cc

-- Two texts are told apart by any value that is one of them.
same-apart :
    (i j : String) (x : Value)
    → (not (strict_equal (str j) x) && strict_equal (str i) x)
      ≡ (not (i == j) && strict_equal (str i) x)
unfolding strict_equal
same-apart i j (str s) = ground (arith, eq_iff i s, eq_iff j s, eq_iff i j)
same-apart i j _ = ground arith

has_id-last : (i j : String) → has_id (str i) (str j ∷ []) ≡ (i == j)
unfolding has_id strict_equal
has_id-last i j = ground arith

has_id-add :
    (i j : String) (ids : List Value)
    → has_id (str i) (add_id (str j) ids) ≡ ((i == j) || has_id (str i) ids)
unfolding add_id
has_id-add i j ids = elim (Bool-cases (has_id (str j) ids)) [
  | inl there ↦
      let same : (i == j) ≡ true → has_id (str i) ids ≡ true =
        λ e. subst (λ k. has_id (str k) ids ≡ true) (sym ((eq_iff i j).0 e)) there in
      rw there (ground (arith, same))
  | inr missing ↦
      rw (missing, has_id-append (str i) ids (str j ∷ [])) (ground (arith, has_id-last i j))
]

has_id-remove :
    (i j : String) (ids : List Value)
    → has_id (str i) (remove_id (str j) ids) ≡ (not (i == j) && has_id (str i) ids)
unfolding has_id remove_id
has_id-remove i j [] = ground arith
has_id-remove i j (x ∷ xs) = ground (arith, same-apart i j x, has_id-remove i j xs)

ids_at-get :
    (key : String) (index : Index) {found : Option (List Value)}
    → get key index ≡ found
    → ids_at key index ≡ or_empty found
unfolding ids_at
ids_at-get key index h = ap or_empty h

has_id-none : (id : Value) → has_id id [] ≡ false
unfolding has_id
has_id-none id = refl

pub ids_at-put :
    (k key : String) (ids : List Value) (index : Index)
    → ids_at key (put k ids index) ≡ (if k == key then ids else ids_at key index)
unfolding ids_at
ids_at-put k key ids index = ap or_empty (get-put k key ids index) ∙ ground arith

ids_at-keep :
    (k key : String) (ids : List Value) (index : Index)
    → ids_at key (keep_ids k ids index) ≡ (if k == key then ids else ids_at key index)
unfolding ids_at keep_ids
ids_at-keep k key [] index = ap or_empty (get-delete k key index) ∙ ground arith
ids_at-keep k key (id ∷ ids) index = ids_at-put k key (id ∷ ids) index

-- What is filed under the keys behind a call, as what was before.
pub lists-file :
    (unique : Bool) (k j : String) (index : Index) {next : Index}
    → file_id unique k (str j) index ≡ ok next
    → (key i : String) → lists key i next ≡ ((k == key) && (i == j) || lists key i index)
unfolding file_id lists
lists-file unique k j index {next} filed key i =
    let (_, done) = require-eq-ok _ _ _ filed in
    let same : next ≡ put k (add_id (str j) (ids_at k index)) index = sym (ok-injective done) in
    rw (same, ids_at-put k key (add_id (str j) (ids_at k index)) index)
      (elim (Bool-cases (k == key)) [
        | inl here ↦
            let e : k ≡ key = (eq_iff k key).0 here in
            rw (here, has_id-add i j (ids_at k index))
              (ap (λ x. (i == j) || has_id (str i) (ids_at x index)) e)
        | inr apart ↦ rw apart refl
      ])

pub lists-unfile :
    (k j : String) (index : Index) (key i : String)
    → lists key i (unfile_id k (str j) index) ≡ (not ((k == key) && (i == j)) && lists key i index)
unfolding unfile_id lists unfile_from
lists-unfile k j index key i = elim (Option-cases (get k index)) [
  | inl absent ↦ rw absent (elim (Bool-cases (k == key)) [
    | inl here ↦
        let e : k ≡ key = (eq_iff k key).0 here in
        let nothing : ids_at key index ≡ [] =
          subst (λ x. ids_at x index ≡ []) e (ids_at-get k index absent) in
        rw (here, nothing) (ground (arith, has_id-none (str i)))
    | inr apart ↦ rw apart (ground arith)
  ])
  | inr (ids, there) ↦
      rw (there, ids_at-keep k key (remove_id (str j) ids) index)
        (elim (Bool-cases (k == key)) [
          | inl here ↦
              let e : k ≡ key = (eq_iff k key).0 here in
              let filed : ids_at key index ≡ ids =
                subst (λ x. ids_at x index ≡ ids) e (ids_at-get k index there) in
              rw (here, filed) (has_id-remove i j ids)
          | inr apart ↦ rw apart (ground arith)
        ])
]
