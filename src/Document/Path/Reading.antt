-- ===== src/Document/Path/Reading.antt =====
-- What a write through a path leaves to be read (src/document.js: setMutable, readDirectPath,
-- resolveValues).
use text.Mathlib.TextPositions.{eq_refl}
use mathlib.Core.Option.{some-injective}
use syncio.Base.{
  ◌≡◌, ◌≢◌, refl, sym, ap, ◌∙◌, subst, String, Bool-cases, inl, inr, ◌⊎◌, Option, none, some,
  Option-cases, List, [], ◌∷◌, ok, >>=-eq-ok, ok-injective, arith, eq_iff, ◌==◌, any, false,
  if◌then◌else◌,
}
use syncio.Json.{Value, undefined, obj, Fields, end, field, set_field}
use syncio.Document.Path.{
  method, nothing, methods, inherited, assign, own, own_property, read_direct, resolve_values,
  resolve_fields, set_parts,
}

pub own-set_field :
    (k j : String) (v : Value) (fs : Fields)
    → own j (set_field k v fs) ≡ (if k == j then some v else own j fs)
unfolding own set_field
own-set_field k j v end = refl
own-set_field k j v (field i w fs) =
    ground (arith, eq_iff k j, eq_iff i k, eq_iff i j, own-set_field k j v fs)

pub own-set_field_self : (k : String) (v : Value) (fs : Fields) → own k (set_field k v fs) ≡ some v
own-set_field_self k v fs = rw (own-set_field k k v fs, eq_refl k)

own-set_field_other :
    (k j : String) (v : Value) (fs : Fields) → k ≢ j → own j (set_field k v fs) ≡ own j fs
own-set_field_other k j v fs differ = own-set_field k j v fs ∙ ground (arith, eq_iff k j)

-- Reading on from a property.
abbrev then_read : List String → Option Value → Option Value
then_read parts none = none
then_read parts (some w) = read_direct parts w

read_direct-own :
    (part : String) (parts : List String) (fs : Fields)
    → read_direct (part ∷ parts) (obj fs) ≡ then_read parts (own part fs)
unfolding read_direct own_property
read_direct-own part parts fs = elim (Option-cases (own part fs)) [
  | inl none_here ↦ rw (none_here, read_direct, own_property)
  | inr (w, found) ↦ rw (found, read_direct, own_property)
]

pub set_field-own :
    (k : String) (v : Value) (fs : Fields) → own k fs ≡ some v → set_field k v fs ≡ fs
unfolding own set_field
set_field-own k v end h = cc
set_field-own k v (field j w fs) h = elim (Bool-cases (j == k)) [
  | inl this ↦
      let same : w ≡ v = some-injective _ _ (rw this at h) in
      let name : j ≡ k = (eq_iff j k).0 this in rw (this, name, same)
  | inr other ↦
      let rest : set_field k v fs ≡ fs = set_field-own k v fs (rw other at h) in rw (other, rest)
]

pub resolve_fields-own :
    (fs : Fields) (part : String) (parts : List String)
    → resolve_fields fs part parts
      ≡ (elim (own part fs) [ none ↦ [] | some v ↦ resolve_values v parts ])
unfolding resolve_values own
resolve_fields-own end part parts = refl
resolve_fields-own (field k v fs) part parts = elim (Bool-cases (k == part)) [
  | inl this ↦ rw (this, resolve_fields)
  | inr other ↦ rw (other, resolve_fields) (resolve_fields-own fs part parts)
]

-- No part of the path is `__proto__`.
abbrev pub IsPlain : List String → Type 0
IsPlain [] = Unit
IsPlain (p ∷ ps) = ((p == "__proto__") ≡ false) × IsPlain ps

assign-plain :
    (part : String) (v : Value) (fs : Fields)
    → (part == "__proto__") ≡ false
    → assign part v fs ≡ set_field part v fs
assign-plain part v fs plain = rw plain refl

inherited-plain :
    (part : String)
    → (part == "__proto__") ≡ false
    → (inherited part ≡ method) ⊎ (inherited part ≡ nothing)
inherited-plain part plain = elim (Bool-cases (any (λ name. part == name) methods)) [
  | inl found ↦ inl (rw (plain, found) refl)
  | inr other ↦ inr (rw (plain, other) refl)
]

-- Where a write through a path of more than one part goes: into an object that is there, or into a new
-- one.
pub record Into (part : String) (fs inner : Fields) : Type 0 where
  pub source :
      (own part fs ≡ some (obj inner))
      ⊎ ((inner ≡ end) × ((own part fs ≡ none) ⊎ (own part fs ≡ some undefined)))

Into-cases :
    (part next : String) (parts : List String) (v : Value) (fs gs : Fields) (o : Option Value)
    → own part fs ≡ o
    → (part == "__proto__") ≡ false
    → set_parts (part ∷ next ∷ parts) v fs ≡ ok gs
    → (inner inner' : Fields) × Into part fs inner
      × (set_parts (next ∷ parts) v inner ≡ ok inner')
      × (gs ≡ set_field part (obj inner') fs)
unfolding set_parts
Into-cases part next parts v fs gs none found plain h = elim (inherited-plain part plain) [
  | inl refused ↦ let wrong = rw (found, set_parts, refused) at h in cc
  | inr missing ↦
      let (inner', run, same) =
        >>=-eq-ok (set_parts (next ∷ parts) v end) _ (rw (found, set_parts, missing) at h) in
      (end, inner', record { source = inr (refl, inl found) }, run, sym (ok-injective same))
]
Into-cases part next parts v fs gs (some undefined) found plain h =
    let (inner', run, same) =
      >>=-eq-ok (set_parts (next ∷ parts) v end) _ (rw (found, set_parts) at h) in
    (end, inner', record { source = inr (refl, inr found) }, run, sym (ok-injective same))
Into-cases part next parts v fs gs (some (obj inner)) found plain h =
    let (inner', run, same) =
      >>=-eq-ok (set_parts (next ∷ parts) v inner) _ (rw (found, set_parts) at h) in
    (inner, inner', record { source = inl found }, run, sym (ok-injective same))
Into-cases part next parts v fs gs (some _) found plain h =
    let wrong = rw (found, set_parts) at h in cc

pub set_parts-Into :
    (part next : String) (parts : List String) (v : Value) (fs gs : Fields)
    → (part == "__proto__") ≡ false
    → set_parts (part ∷ next ∷ parts) v fs ≡ ok gs
    → (inner inner' : Fields) × Into part fs inner
      × (set_parts (next ∷ parts) v inner ≡ ok inner')
      × (gs ≡ set_field part (obj inner') fs)
set_parts-Into part next parts v fs gs = Into-cases part next parts v fs gs (own part fs) refl

-- What was written is read.
pub read_direct-set_parts :
    (part : String) (parts : List String) (v : Value) (fs gs : Fields)
    → IsPlain (part ∷ parts)
    → set_parts (part ∷ parts) v fs ≡ ok gs
    → read_direct (part ∷ parts) (obj gs) ≡ some v
unfolding read_direct own_property set_parts
read_direct-set_parts part [] v fs gs plain h =
    read_direct-own part [] gs
    ∙ ap (λ t. then_read [] (own part t)) (sym (ok-injective h) ∙ assign-plain part v fs plain.0)
    ∙ ap (then_read []) (own-set_field_self part v fs)
read_direct-set_parts part (next ∷ parts) v fs gs plain h =
    let (inner, inner', into, run, same) = set_parts-Into part next parts v fs gs plain.0 h in
    read_direct-own part (next ∷ parts) gs
    ∙ ap (λ t. then_read (next ∷ parts) (own part t)) same
    ∙ ap (then_read (next ∷ parts)) (own-set_field_self part (obj inner') fs)
    ∙ read_direct-set_parts next parts v inner inner' plain.1 run

-- It is all that a query finds there.
pub resolve_values-set_parts :
    (part : String) (parts : List String) (v : Value) (fs gs : Fields)
    → IsPlain (part ∷ parts)
    → set_parts (part ∷ parts) v fs ≡ ok gs
    → resolve_values (obj gs) (part ∷ parts) ≡ v ∷ []
unfolding resolve_values set_parts
resolve_values-set_parts part [] v fs gs plain h =
    resolve_fields-own gs part []
    ∙ rw (← ok-injective h, assign-plain part v fs plain.0, own-set_field_self part v fs)
resolve_values-set_parts part (next ∷ parts) v fs gs plain h =
    let (inner, inner', into, run, same) = set_parts-Into part next parts v fs gs plain.0 h in
    resolve_fields-own gs part (next ∷ parts)
    ∙ rw (same, own-set_field_self part (obj inner') fs)
        (resolve_values-set_parts next parts v inner inner' plain.1 run)

-- Two paths that part ways before either ends.
abbrev pub Apart : List String → List String → Type 0
Apart [] qs = ⊥
Apart (p ∷ ps) [] = ⊥
Apart (p ∷ ps) (q ∷ qs) = (p ≢ q) ⊎ ((p ≡ q) × Apart ps qs)

read-Into :
    (part : String) (fs inner : Fields) (q : String) (qs : List String)
    → Into part fs inner
    → read_direct (part ∷ q ∷ qs) (obj fs) ≡ read_direct (q ∷ qs) (obj inner)
unfolding read_direct own_property own
read-Into part fs inner q qs into = read_direct-own part (q ∷ qs) fs ∙ elim (into.source) [
  | inl found ↦ ap (then_read (q ∷ qs)) found
  | inr (empty, inl found) ↦
      ap (then_read (q ∷ qs)) found ∙ sym (ap (λ t. read_direct (q ∷ qs) (obj t)) empty)
  | inr (empty, inr found) ↦
      ap (then_read (q ∷ qs)) found ∙ sym (ap (λ t. read_direct (q ∷ qs) (obj t)) empty)
]

read_other :
    (p q : String) (qs : List String) (v : Value) (fs gs : Fields)
    → p ≢ q
    → gs ≡ set_field p v fs
    → read_direct (q ∷ qs) (obj gs) ≡ read_direct (q ∷ qs) (obj fs)
read_other p q qs v fs gs differ same =
    read_direct-own q qs gs
    ∙ ap (then_read qs) (ap (own q) same ∙ own-set_field_other p q v fs differ)
    ∙ sym (read_direct-own q qs fs)

-- What lies on another path is read as before.
pub read_direct-set_parts-Apart :
    (ps qs : List String) (v : Value) (fs gs : Fields)
    → Apart ps qs
    → IsPlain ps
    → set_parts ps v fs ≡ ok gs
    → read_direct qs (obj gs) ≡ read_direct qs (obj fs)
unfolding read_direct own_property set_parts
read_direct-set_parts-Apart [] qs v fs gs apart plain h = absurd apart
read_direct-set_parts-Apart (p ∷ ps) [] v fs gs apart plain h = absurd apart
read_direct-set_parts-Apart (p ∷ []) (q ∷ qs) v fs gs (inl differ) plain h =
    read_other p q qs v fs gs differ (sym (ok-injective h) ∙ assign-plain p v fs plain.0)
read_direct-set_parts-Apart (p ∷ []) (q ∷ qs) v fs gs (inr (same, apart)) plain h = absurd apart
read_direct-set_parts-Apart (p ∷ next ∷ ps) (q ∷ qs) v fs gs (inl differ) plain h =
    let (inner, inner', into, run, same) = set_parts-Into p next ps v fs gs plain.0 h in
    read_other p q qs (obj inner') fs gs differ same
read_direct-set_parts-Apart (p ∷ next ∷ ps) (q ∷ []) v fs gs (inr (same, apart)) plain h =
    absurd apart
read_direct-set_parts-Apart (p ∷ next ∷ ps) (q ∷ r ∷ qs) v fs gs (inr (head, apart)) plain h =
    let (inner, inner', into, run, same) = set_parts-Into p next ps v fs gs plain.0 h in
    subst (λ k. read_direct (k ∷ r ∷ qs) (obj gs) ≡ read_direct (k ∷ r ∷ qs) (obj fs)) head
      (read_direct-own p (r ∷ qs) gs
        ∙ ap (λ t. then_read (r ∷ qs) (own p t)) same
        ∙ ap (then_read (r ∷ qs)) (own-set_field_self p (obj inner') fs)
        ∙ read_direct-set_parts-Apart (next ∷ ps) (r ∷ qs) v inner inner' apart plain.1 run
        ∙ sym (read-Into p fs inner r qs into))

-- Writing the same again changes nothing.
pub set_parts_twice :
    (ps : List String) (v : Value) (fs gs : Fields)
    → IsPlain ps
    → set_parts ps v fs ≡ ok gs
    → set_parts ps v gs ≡ ok gs
unfolding set_parts
set_parts_twice [] v fs gs plain h = refl
set_parts_twice (p ∷ []) v fs gs plain h =
    let written : gs ≡ set_field p v fs = sym (ok-injective h) ∙ assign-plain p v fs plain.0 in
    ap ok (
      assign-plain p v gs plain.0
      ∙ set_field-own p v gs (ap (own p) written ∙ own-set_field_self p v fs))
set_parts_twice (p ∷ next ∷ ps) v fs gs plain h =
    let (inner, inner', into, run, same) = set_parts-Into p next ps v fs gs plain.0 h in
    let there : own p gs ≡ some (obj inner') =
      ap (own p) same ∙ own-set_field_self p (obj inner') fs in
    rw (there, set_parts, set_parts_twice (next ∷ ps) v inner inner' plain.1 run)
      (ap ok (set_field-own p (obj inner') gs there))
