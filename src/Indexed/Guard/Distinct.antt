-- ===== src/Indexed/Guard/Distinct.antt =====
-- A write that passes the check of the unique indexes leaves no two records under one key
-- (src/indexed.js: #assertUniqueCandidateAgainstRecords).

use syncio.Base.{
  ◌≡◌, refl, sym, ap, subst, ◌∙◌, String, Bool, true, false, not, ◌&&◌, ◌||◌, none, some, List, [],
  ◌∷◌, inl, inr, Bool-cases, Option-cases, any, arith, ◌==◌, eq_iff, if◌then◌else◌,
}
use syncio.Base.Maps.{get, put, delete, values, get-put, get-delete}
use syncio.Json.{Value, str, truthy, property}
use syncio.Document.Runtime.{strict_equal}
use syncio.Database.State.{Collection}
use syncio.Indexed.{Definition, field_values, is_missing, entry_key}
use syncio.Indexed.Catalog.{same_values}
use syncio.Indexed.Kept.{IsKeyed, is_key, filed_under}
use syncio.Indexed.Rebuilt.{IsUnique}
use syncio.Indexed.Guard.{is_clash, violates}

or-false : (a b : Bool) → (a || b) ≡ false → (a ≡ false) × (b ≡ false)
or-false true b h = cc
or-false false b h = (refl, h)

third_false : (a b c : Bool) → a ≡ true → b ≡ true → (a && b && c) ≡ false → c ≡ false
third_false a b c h k l = ground arith

not_clash : (t s m : Bool) → (not (t && s) && m) ≡ false → s ≡ false → m ≡ true → ⊥
not_clash t s m h k l = ground arith

other_way : (i j : String) → (i == j) ≡ false → (j == i) ≡ false
other_way i j h = ground (arith, eq_iff i j, eq_iff j i)

any-values :
    (p : Value → Bool) (c : Collection) (i : String) (r : Value)
    → any p (values c) ≡ false
    → get i c ≡ some r
    → p r ≡ false
unfolding get
any-values p [] i r none_of there = cc
any-values p ((k, v) ∷ c) i r none_of there =
    let (here, later) = or-false (p v) (any p (values c)) none_of in
    elim (Bool-cases (k == i)) [
      | inl same ↦
          let is_v : some v ≡ some r =
            subst (λ b. (if b then some v else get i c) ≡ some r) same there in
          let e : v ≡ r = cc in subst (λ x. p x ≡ false) e here
      | inr other ↦
          any-values p c i r later
            (subst (λ b. (if b then some v else get i c) ≡ some r) other there)
    ]

module _ (stringify : List Value → String) (d : Definition) where
  -- A document with a key is not left out, and the key is the text of its values.
  filed-key :
      (document : Value) (key : String)
      → filed_under stringify d (some document) key ≡ true
      → ((d.sparse && any is_missing (field_values d.fields document)) ≡ false)
        × (stringify (field_values d.fields document) ≡ key)
  unfolding entry_key
  filed-key document key filed =
      elim (Bool-cases (d.sparse && any is_missing (field_values d.fields document))) [
        | inl out ↦
            let no : false ≡ true =
              subst
                (λ b.
                  is_key (if b then none else some (stringify (field_values d.fields document))) key
                  ≡ true)
                out filed in
            cc
        | inr kept ↦ (
          kept,
          (eq_iff _ _).0 (
              subst
                (λ b.
                  is_key (if b then none else some (stringify (field_values d.fields document))) key
                  ≡ true)
                kept filed),
        )
      ]

  no_clash :
      (c : Collection) (id i : String) (document r : Value) (key : String)
      → IsKeyed c
      → truthy (str id) ≡ true
      → d.unique ≡ true
      → violates stringify document (str id) (values c) d ≡ false
      → (id == i) ≡ false
      → get i c ≡ some r
      → filed_under stringify d (some document) key ≡ true
      → filed_under stringify d (some r) key ≡ true
      → ⊥
  unfolding IsKeyed violates is_clash same_values strict_equal
  no_clash c id i document r key keyed some_id is_unique free other there first second =
      let (kept, first_key) = filed-key document key first in
      let (_, second_key) = filed-key r key second in
      let alone : any (is_clash stringify d document (str id)) (values c) ≡ false =
        third_false d.unique (not (d.sparse && any is_missing (field_values d.fields document)))
          (any (is_clash stringify d document (str id)) (values c)) is_unique (ap not kept) free in
      let clash : is_clash stringify d document (str id) r ≡ false =
        any-values (is_clash stringify d document (str id)) c i r alone there in
      let same : (stringify (field_values d.fields document) == stringify (field_values d.fields r))
          ≡ true =
        (eq_iff _ _).1 (first_key ∙ sym second_key) in
      not_clash (truthy (str id)) (strict_equal (property "id" r) (str id))
        (stringify (field_values d.fields document) == stringify (field_values d.fields r)) clash
        (rw ((keyed i r there).0) (other_way id i other)) same

  no_other :
      (c : Collection) (id i : String) (document : Value) (key : String)
      → IsKeyed c
      → truthy (str id) ≡ true
      → d.unique ≡ true
      → violates stringify document (str id) (values c) d ≡ false
      → (id == i) ≡ false
      → filed_under stringify d (some document) key ≡ true
      → filed_under stringify d (get i c) key ≡ true
      → ⊥
  no_other c id i document key keyed some_id is_unique free other first second =
      elim (Option-cases (get i c)) [
        | inl missing ↦
            let no : false ≡ true =
              subst (λ o. filed_under stringify d o key ≡ true) missing second in
            cc
        | inr (r, there) ↦
            no_clash c id i document r key keyed some_id is_unique free other there first
              (subst (λ o. filed_under stringify d o key ≡ true) there second)
      ]

  -- Writing a record that violates no unique index leaves no two records under one of its keys.
  pub IsUnique-put :
      (c : Collection) (id : String) (document : Value)
      → IsKeyed c
      → IsUnique stringify d c
      → property "id" document ≡ str id
      → truthy (str id) ≡ true
      → d.unique ≡ true
      → violates stringify document (str id) (values c) d ≡ false
      → IsUnique stringify d (put id document c)
  unfolding IsUnique IsKeyed violates
  IsUnique-put c id document keyed unique named some_id is_unique free key i j first second =
      let branch : Bool → String → Type 0 =
        λ b x. filed_under stringify d (if b then some document else get x c) key ≡ true in
      let at_i : branch (id == i) i =
        subst (λ o. filed_under stringify d o key ≡ true) (get-put id i document c) first in
      let at_j : branch (id == j) j =
        subst (λ o. filed_under stringify d o key ≡ true) (get-put id j document c) second in
      elim (Bool-cases (id == i)) [
        | inl here ↦ elim (Bool-cases (id == j)) [
          | inl there ↦ sym ((eq_iff id i).0 here) ∙ (eq_iff id j).0 there
          | inr other ↦ absurd (
              no_other c id j document key keyed some_id is_unique free other
                (subst (λ b. branch b i) here at_i) (subst (λ b. branch b j) other at_j))
        ]
        | inr other ↦ elim (Bool-cases (id == j)) [
          | inl there ↦ absurd (
              no_other c id i document key keyed some_id is_unique free other
                (subst (λ b. branch b j) there at_j) (subst (λ b. branch b i) other at_i))
          | inr apart ↦
              unique key i j (subst (λ b. branch b i) other at_i)
                (subst (λ b. branch b j) apart at_j)
        ]
      ]

  pub IsUnique-delete :
      (c : Collection) (id : String) → IsUnique stringify d c → IsUnique stringify d (delete id c)
  unfolding IsUnique
  IsUnique-delete c id unique key i j first second = unique key i j (kept i first) (kept j second)
    where
      kept :
          (x : String)
          → filed_under stringify d (get x (delete id c)) key ≡ true
          → filed_under stringify d (get x c) key ≡ true
      kept x filed = elim (Bool-cases (id == x)) [
        | inl gone ↦
            let no : false ≡ true =
              subst (λ o. filed_under stringify d o key ≡ true)
                (get-delete id x c ∙ ap (λ b. if b then none else get x c) gone) filed in
            cc
        | inr other ↦
            subst (λ o. filed_under stringify d o key ≡ true)
              (get-delete id x c ∙ ap (λ b. if b then none else get x c) other) filed
      ]

  pub IsUnique-alike :
      (c e : Collection)
      → ((k : String) → get k c ≡ get k e)
      → IsUnique stringify d c
      → IsUnique stringify d e
  unfolding IsUnique
  IsUnique-alike c e same unique key i j first second =
      unique key i j (rw (same i) first) (rw (same j) second)
