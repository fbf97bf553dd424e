-- ===== src/Document/Update/Arrays.antt =====
-- The array operators are idempotent where they should be (src/document.js: arrayUpdate, pullUpdate).
use syncio.Base.{
  ◌≡◌, refl, sym, ap, ◌∙◌, subst, String, Bool, true, false, Bool-cases, inl, inr, Option, none,
  some, List, [], ◌∷◌, ◌++◌, ok, >>=-eq-ok, ok-injective, any, All, if◌then◌else◌,
}
use syncio.Json.{Value, arr, Fields}
use syncio.Document.Runtime.{Runtime}
use syncio.Document.Match.{items_list}
use syncio.Document.Update.{
  read_path, items_of, array_or_empty, added_values, add_unique, array_update, pull_matches, retain,
  pull_update,
}
use syncio.Document.Path.{split_path}
use syncio.Document.Path.Reading.{IsPlain}
use syncio.Document.Update.Setting.{set_mutable-IsWritten}

items_list-items_of : (xs : List Value) → items_list (items_of xs) ≡ xs
unfolding items_list items_of
items_list-items_of [] = refl
items_list-items_of (x ∷ xs) = ap (λ t. x ∷ t) (items_list-items_of xs)

module _ (rt : Runtime) where
  abbrev contains : List Value → Value → Bool
  contains array item = any (λ x. rt.deep_equal x item) array

  abbrev HasAll : List Value → List Value → Type 0
  HasAll array items = All (λ item. contains array item ≡ true) items

  contains-append :
      (array : List Value) (new item : Value)
      → contains array item ≡ true
      → contains (array ++ new ∷ []) item ≡ true
  contains-append [] new item h = cc
  contains-append (x ∷ xs) new item h = elim (Bool-cases (rt.deep_equal x item)) [
    | inl here ↦ rw here
    | inr there ↦ rw there (contains-append xs new item (rw there at h))
  ]

  contains-append_self :
      (array : List Value) (item : Value)
      → rt.deep_equal item item ≡ true
      → contains (array ++ item ∷ []) item ≡ true
  contains-append_self [] item same = rw same
  contains-append_self (x ∷ xs) item same = elim (Bool-cases (rt.deep_equal x item)) [
    | inl here ↦ rw here
    | inr there ↦ rw there (contains-append_self xs item same)
  ]

  -- What is in the array stays in it.
  contains-add_unique :
      (array items : List Value) (item : Value)
      → contains array item ≡ true
      → contains (add_unique rt array items) item ≡ true
  unfolding add_unique
  contains-add_unique array [] item h = h
  contains-add_unique array (new ∷ items) item h = elim (Bool-cases (contains array new)) [
    | inl there ↦ rw there (contains-add_unique array items item h)
    | inr missing ↦
        rw missing
          (contains-add_unique (array ++ new ∷ []) items item (contains-append array new item h))
  ]

  HasAll-add_unique :
      ((v : Value) → rt.deep_equal v v ≡ true)
      → (array items : List Value) → HasAll (add_unique rt array items) items
  unfolding add_unique
  HasAll-add_unique same array [] = tt
  HasAll-add_unique same array (new ∷ items) = elim (Bool-cases (contains array new)) [
    | inl there ↦
        let skip : add_unique rt array (new ∷ items) ≡ add_unique rt array items = rw there in
        subst (λ a. HasAll a (new ∷ items)) (sym skip)
          (contains-add_unique array items new there, HasAll-add_unique same array items)
    | inr missing ↦
        let longer : List Value = array ++ new ∷ [] in
        let push : add_unique rt array (new ∷ items) ≡ add_unique rt longer items = rw missing in
        subst (λ a. HasAll a (new ∷ items)) (sym push)
          (
            contains-add_unique longer items new (contains-append_self array new (same new)),
            HasAll-add_unique same longer items,
          )
  ]

  add_unique-HasAll :
      (array items : List Value) → HasAll array items → add_unique rt array items ≡ array
  unfolding add_unique
  add_unique-HasAll array [] h = refl
  add_unique-HasAll array (new ∷ items) h = rw (h.0) (add_unique-HasAll array items h.1)

  -- Adding the same values to a set a second time changes nothing, if every value equals
  -- itself and the path has no part `__proto__`.
  pub array_update_twice :
      (path : String) (value : Value) (fs gs : Fields)
      → ((v : Value) → rt.deep_equal v v ≡ true)
      → IsPlain (split_path path)
      → array_update rt true path value fs ≡ ok gs
      → array_update rt true path value gs ≡ ok gs
  unfolding array_update
  array_update_twice path value fs gs same plain h =
      let (array, found, h₁) = >>=-eq-ok (array_or_empty (read_path path fs)) _ h in
      let all : List Value = add_unique rt array (added_values value) in
      let written = set_mutable-IsWritten path (arr (items_of all)) fs gs plain h₁ in
      let stays : add_unique rt all (added_values value) ≡ all =
        add_unique-HasAll all (added_values value)
          (HasAll-add_unique same array (added_values value)) in
      rw (written.reads, items_list-items_of all, stays) (written.again)

  retain_twice :
      (condition : Value) (xs ys : List Value)
      → retain rt condition xs ≡ ok ys
      → retain rt condition ys ≡ ok ys
  unfolding retain
  retain_twice condition [] ys h = rw (← ok-injective h)
  retain_twice condition (x ∷ xs) ys h =
      let (pulled, tested, h₁) = >>=-eq-ok (pull_matches rt condition x) _ h in
      let (rest, kept, h₂) = >>=-eq-ok (retain rt condition xs) _ h₁ in
      again pulled rest tested (retain_twice condition xs rest kept) (ok-injective h₂)
    where
      again :
          (pulled : Bool) (rest : List Value)
          → pull_matches rt condition x ≡ ok pulled
          → retain rt condition rest ≡ ok rest
          → (if pulled then rest else x ∷ rest) ≡ ys
          → retain rt condition ys ≡ ok ys
      again true rest tested kept same = rw (← same) kept
      again false rest tested kept same = rw (← same, retain, tested, kept)

  -- Pulling a second time changes nothing, if the path has no part `__proto__`.
  pub pull_update_twice :
      (path : String) (condition : Value) (fs gs : Fields)
      → IsPlain (split_path path)
      → pull_update rt path condition fs ≡ ok gs
      → pull_update rt path condition gs ≡ ok gs
  unfolding pull_update
  pull_update_twice path condition fs gs plain h = pull_cases (read_path path fs) refl
    where
      pull_cases :
          (o : Option Value) → read_path path fs ≡ o → pull_update rt path condition gs ≡ ok gs
      pull_cases none missing =
          let same : fs ≡ gs = ok-injective (rw (missing, pull_update) at h) in
          subst (λ t. pull_update rt path condition t ≡ ok t) same (h ∙ ap ok (sym same))
      pull_cases (some (arr xs)) found =
          let (ys, kept, wrote) =
            >>=-eq-ok (retain rt condition (items_list xs)) _ (rw (found, pull_update) at h) in
          let written = set_mutable-IsWritten path (arr (items_of ys)) fs gs plain wrote in
          rw
            (
              written.reads,
              pull_update,
              items_list-items_of ys,
              retain_twice condition (items_list xs) ys kept,
            )
            (written.again)
      pull_cases (some _) found = let wrong = rw (found, pull_update) at h in cc
