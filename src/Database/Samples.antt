-- ===== src/Database/Samples.antt =====
-- Values that the examples share: a comparison of records, a digest, and what the file system does.
use syncio.Base.{
  ◌≡◌, refl, sym, ap, subst, ◌∙◌, String, Bool, true, false, not, ◌&&◌, eqb, eqb_iff, eqb_refl,
  ◌==◌, eq_iff,
}
use syncio.Json.{
  Value, undefined, null, bool, num, str, arr, obj, exotic, Items, nil, cons, Fields, end, field,
  truthy, property,
}
use syncio.Wal.{Payload, synced, unwritten, replaced, kept, unconfirmed}
use syncio.Database.Events.{Env}
use syncio.Database.Same.{Equality}
use syncio.Database.Commit.{Io, both_replaced, neither_replaced, file_replaced}

-- Whether two values have the same structure.
unfoldable mutual
  pub equal : Value → Value → Bool
  equal undefined undefined = true
  equal null null = true
  equal (bool true) (bool b) = b
  equal (bool false) (bool b) = not b
  equal (num m) (num n) = eqb m n
  equal (str s) (str t) = s == t
  equal (arr xs) (arr ys) = equal_items xs ys
  equal (obj fs) (obj gs) = equal_fields fs gs
  equal (exotic true) (exotic b) = b
  equal (exotic false) (exotic b) = not b
  equal _ _ = false

  equal_items : Items → Items → Bool
  equal_items nil nil = true
  equal_items (cons x xs) (cons y ys) = equal x y && equal_items xs ys
  equal_items _ _ = false

  equal_fields : Fields → Fields → Bool
  equal_fields end end = true
  equal_fields (field j v fs) (field k w gs) = j == k && (equal v w && equal_fields fs gs)
  equal_fields _ _ = false

&&-eq-true : (a b : Bool) → (a && b) ≡ true → (a ≡ true) × (b ≡ true)
&&-eq-true true true h = (refl, refl)
&&-eq-true true false h = cc
&&-eq-true false b h = cc

mutual
  unfolding equal equal_items equal_fields

  pub equal→≡ : (v w : Value) → equal v w ≡ true → v ≡ w
  equal→≡ undefined undefined h = refl
  equal→≡ null null h = refl
  equal→≡ (bool true) (bool true) h = refl
  equal→≡ (bool false) (bool false) h = refl
  equal→≡ (num m) (num n) h = ap num ((eqb_iff m n).0 h)
  equal→≡ (str s) (str t) h = ap str ((eq_iff s t).0 h)
  equal→≡ (arr xs) (arr ys) h = ap arr (items→≡ xs ys h)
  equal→≡ (obj fs) (obj gs) h = ap obj (fields→≡ fs gs h)
  equal→≡ (exotic true) (exotic true) h = refl
  equal→≡ (exotic false) (exotic false) h = refl
  equal→≡ _ _ h = cc

  items→≡ : (xs ys : Items) → equal_items xs ys ≡ true → xs ≡ ys
  items→≡ nil nil h = refl
  items→≡ (cons x xs) (cons y ys) h =
      let (head, tail) = &&-eq-true (equal x y) (equal_items xs ys) h in
      ap (λ z. cons z xs) (equal→≡ x y head) ∙ ap (cons y) (items→≡ xs ys tail)
  items→≡ _ _ h = cc

  fields→≡ : (fs gs : Fields) → equal_fields fs gs ≡ true → fs ≡ gs
  fields→≡ end end h = refl
  fields→≡ (field j v fs) (field k w gs) h =
      let (name, rest) = &&-eq-true (j == k) (equal v w && equal_fields fs gs) h in
      let (head, tail) = &&-eq-true (equal v w) (equal_fields fs gs) rest in
      ap (λ i. field i v fs) ((eq_iff j k).0 name)
      ∙ ap (λ z. field k z fs) (equal→≡ v w head)
      ∙ ap (field k w) (fields→≡ fs gs tail)
  fields→≡ _ _ h = cc

mutual
  unfolding equal equal_items equal_fields

  equal_self : (v : Value) → equal v v ≡ true
  equal_self undefined = refl
  equal_self null = refl
  equal_self (bool true) = refl
  equal_self (bool false) = refl
  equal_self (num n) = eqb_refl n
  equal_self (str s) = (eq_iff s s).1 refl
  equal_self (arr xs) = items_self xs
  equal_self (obj fs) = fields_self fs
  equal_self (exotic true) = refl
  equal_self (exotic false) = refl

  items_self : (xs : Items) → equal_items xs xs ≡ true
  items_self nil = refl
  items_self (cons x xs) = rw (equal_self x) (items_self xs)

  fields_self : (fs : Fields) → equal_fields fs fs ≡ true
  fields_self end = refl
  fields_self (field k v fs) = rw ((eq_iff k k).1 refl, equal_self v) (fields_self fs)

pub ≡→equal : (v w : Value) → v ≡ w → equal v w ≡ true
≡→equal v w h = subst (λ u. equal v u ≡ true) h (equal_self v)

-- Values are compared by their structure.
abbrev pub structural : Equality
structural = record {
  deep_equal = equal;
  reflexive = λ v. ≡→equal v v refl;
  symmetric = λ v w h. ≡→equal w v (sym (equal→≡ v w h));
  transitive = λ u v w h k. ≡→equal u w (equal→≡ u v h ∙ equal→≡ v w k);
  of_text = λ v s h. equal→≡ v (str s) h;
  of_array = λ v xs h. (xs, equal→≡ v (arr xs) h);
  of_truthy = λ v w h. ap truthy (equal→≡ v w h);
  of_property = λ k v w h. ≡→equal (property k v) (property k w) (ap (property k) (equal→≡ v w h));
}

abbrev pub digest : Payload → String
digest p = p.database_id

abbrev pub env : Env
env = record { fresh = λ n. "change"; record_id = "r"; now = "2026-01-01T00:00:00.000Z" }

abbrev pub note : String → Value
note id = obj (field "id" (str id) (field "done" (bool false) end))

abbrev pub ok_io : Io
ok_io = record { line = synced; checkpoint = both_replaced; log = replaced }

abbrev pub full_disk : Io
full_disk = record { line = unwritten; checkpoint = neither_replaced; log = kept }

abbrev pub late_failure : Io
late_failure = record { line = synced; checkpoint = file_replaced; log = unconfirmed }

compares : (equal (note "a") (note "b") ≡ false) × (equal (note "a") (note "a") ≡ true)
unfolding equal
compares = (refl, refl)
