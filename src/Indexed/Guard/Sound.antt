-- ===== src/Indexed/Guard/Sound.antt =====
-- States in which no unique index has two records under one key, and what keeps them so
-- (src/indexed.js: #assertUniqueCandidateAgainstRecords).
use syncio.Base.{
  ◌≡◌, ◌⊎◌, refl, sym, ap, subst, ◌∙◌, String, Bool, true, false, none, some, List, [], ◌∷◌, Error,
  ok, inl, inr, Bool-cases, any, arith, ◌==◌, eq_iff, require, if◌then◌else◌,
}
use syncio.Base.Maps.{Map, get, put, delete, values, get-put, get-delete}
use syncio.Json.{Value, str, truthy, property}
use syncio.Database.State.{Collection, collection_of}
use syncio.Database.Replay.{store, erase}
use syncio.Database.Same.{get-store, get-erase}
use syncio.Indexed.{Definition}
use syncio.Indexed.Kept.{IsKeyed}
use syncio.Indexed.Rebuilt.{IsUnique}
use syncio.Indexed.Guard.{violates}
use syncio.Indexed.Guard.Distinct.{IsUnique-put, IsUnique-delete, IsUnique-alike}

abbrev pub Among : Definition → List Definition → Type 0
Among d [] = ⊥
Among d (e ∷ es) = (d ≡ e) ⊎ Among d es

pub any-Among :
    (p : Definition → Bool) (ds : List Definition) (d : Definition)
    → any p ds ≡ false
    → Among d ds
    → p d ≡ false
any-Among p [] d none_of among = absurd among
any-Among p (e ∷ es) d none_of (inl same) = rw same (ground arith)
any-Among p (e ∷ es) d none_of (inr later) = any-Among p es d (ground arith) later

-- Two maps of collections with the same records.
abbrev pub AreSame : Map Collection → Map Collection → Type 0
AreSame w cs = (n k : String) → get k (collection_of n w) ≡ get k (collection_of n cs)

collection_of-put :
    (name m : String) (new : Collection) (cs : Map Collection)
    → collection_of m (put name new cs) ≡ (if name == m then new else collection_of m cs)
unfolding collection_of
collection_of-put name m new cs = ground (arith, get-put name m new cs)

-- What holds of each collection still does when one is replaced by another of which it holds.
replaced_each :
    (P : String → Collection → Type 0) (name : String) (new : Collection) (cs : Map Collection)
    → P name new
    → ((m : String) → P m (collection_of m cs))
    → (m : String) → P m (collection_of m (put name new cs))
replaced_each P name new cs holds others m =
    rw (collection_of-put name m new cs) (elim (Bool-cases (name == m)) [
      | inl here ↦ rw here (subst (λ x. P x new) ((eq_iff name m).0 here) holds)
      | inr apart ↦ rw apart (others m)
    ])

pub AreSame-store :
    (name key : String) (document : Value) (w cs : Map Collection)
    → AreSame w cs
    → AreSame (store name key document w) (store name key document cs)
AreSame-store name key document w cs same n k =
    rw
      (get-store name key document w n k, get-store name key document cs n k, same name k, same n k)
      refl

pub AreSame-erase :
    (name key : String) (w cs : Map Collection)
    → AreSame w cs
    → AreSame (erase name key w) (erase name key cs)
AreSame-erase name key w cs same n k =
    rw (get-erase name key w n k, get-erase name key cs n k, same name k, same n k) refl

pub require-true : (t : Bool) (e : Error) → require t e ≡ ok tt → t ≡ true
require-true true e h = refl
require-true false e h = cc

pub IsKeyed-put :
    (c : Collection) (id : String) (document : Value)
    → IsKeyed c
    → property "id" document ≡ str id
    → truthy document ≡ true
    → IsKeyed (put id document c)
unfolding IsKeyed
IsKeyed-put c id document keyed named is_there i r found =
    let placed : (if id == i then some document else get i c) ≡ some r =
      sym (get-put id i document c) ∙ found in
    elim (Bool-cases (id == i)) [
      | inl here ↦
          let e : some document ≡ some r =
            subst (λ b. (if b then some document else get i c) ≡ some r) here placed in
          let same : document ≡ r = cc in
          subst (λ x. (property "id" x ≡ str i) × (truthy x ≡ true)) same
            (named ∙ ap str ((eq_iff id i).0 here), is_there)
      | inr apart ↦
          keyed i r (subst (λ b. (if b then some document else get i c) ≡ some r) apart placed)
    ]

IsKeyed-delete : (c : Collection) (id : String) → IsKeyed c → IsKeyed (delete id c)
unfolding IsKeyed
IsKeyed-delete c id keyed i r found =
    let left : (if id == i then none else get i c) ≡ some r = sym (get-delete id i c) ∙ found in
    elim (Bool-cases (id == i)) [
      | inl gone ↦
          let no : none ≡ some r = subst (λ b. (if b then none else get i c) ≡ some r) gone left in
          cc
      | inr apart ↦ keyed i r (subst (λ b. (if b then none else get i c) ≡ some r) apart left)
    ]

module _ (stringify : List Value → String) (definitions : String → List Definition) where
  -- Each record stands under its identity, and no unique index has two records under one key.
  pub record IsSound (cs : Map Collection) : Type 0 where
    pub keyed : (name : String) → IsKeyed (collection_of name cs)
    pub unique :
        (name : String) (d : Definition)
        → Among d (definitions name)
        → d.unique ≡ true
        → IsUnique stringify d (collection_of name cs)

  pub IsSound-alike : (w cs : Map Collection) → AreSame w cs → IsSound w → IsSound cs
  unfolding IsKeyed
  IsSound-alike w cs same sound = record {
    keyed = λ name id document there. sound.keyed name id document (same name id ∙ there);
    unique = λ name d among is_unique.
        IsUnique-alike stringify d (collection_of name w) (collection_of name cs) (same name)
          (sound.unique name d among is_unique);
  }

  pub IsSound-store :
      (name id : String) (document : Value) (cs : Map Collection)
      → IsSound cs
      → property "id" document ≡ str id
      → truthy (str id) ≡ true
      → truthy document ≡ true
      → any
          (violates stringify document (str id) (values (collection_of name cs)))
          (definitions name)
        ≡ false
      → IsSound (store name id document cs)
  unfolding store
  IsSound-store name id document cs sound named some_id there free = record {
    keyed =
        replaced_each (λ n. IsKeyed) name (put id document (collection_of name cs)) cs
          (IsKeyed-put (collection_of name cs) id document (sound.keyed name) named there)
          sound.keyed;
    unique = λ m d among is_unique.
        replaced_each (λ n c. Among d (definitions n) → IsUnique stringify d c) name
          (put id document (collection_of name cs)) cs
          (λ here.
            IsUnique-put stringify d (collection_of name cs) id document (sound.keyed name)
              (sound.unique name d here is_unique) named some_id is_unique
              (any-Among _ (definitions name) d free here))
          (λ n here. sound.unique n d here is_unique) m among;
  }

  pub IsSound-erase :
      (name id : String) (cs : Map Collection) → IsSound cs → IsSound (erase name id cs)
  unfolding erase
  IsSound-erase name id cs sound = record {
    keyed =
        replaced_each (λ n. IsKeyed) name (delete id (collection_of name cs)) cs
          (IsKeyed-delete (collection_of name cs) id (sound.keyed name)) sound.keyed;
    unique = λ m d among is_unique.
        replaced_each (λ n c. Among d (definitions n) → IsUnique stringify d c) name
          (delete id (collection_of name cs)) cs
          (λ here.
            IsUnique-delete stringify d (collection_of name cs) id
              (sound.unique name d here is_unique))
          (λ n here. sound.unique n d here is_unique) m among;
  }
