-- ===== src/Document/Aggregate/Order.antt =====
-- The order that $sort makes, by the places of the values (src/document.js: sortDocuments).
use syncio.Base.{
  ℕ, ◌<◌, ◌≤◌, ◌≡◌, refl, sym, ◌∙◌, String, Bool, true, false, Bool-cases, inl, inr, List, [], ◌∷◌,
  All, ltb, eqb, ◌&&◌, ◌⊎◌, arith,
}
use syncio.Json.{Value, undefined, obj, Fields}
use syncio.Document.Runtime.{Runtime}
use syncio.Document.Path.{split_path, resolve_values}
use syncio.Document.Aggregate.{
  Direction, ascending, descending, first_or_undefined, value_before, row_before,
}

-- The value that a row is sorted by.
abbrev pub value_at : String → Fields → Value
value_at path row = first_or_undefined (resolve_values (obj row) (split_path path))

-- The places of two values, and of two rows by one entry after another.
abbrev pub Strictly : Direction → ℕ → ℕ → Type 0
Strictly ascending m n = m < n
Strictly descending m n = n < m

abbrev pub IsOrdered : (Value → ℕ) → List (String × Direction) → Fields → Fields → Type 0
IsOrdered place [] left right = Unit
IsOrdered place ((path, direction) ∷ entries) left right =
    Strictly direction (place (value_at path left)) (place (value_at path right))
    ⊎ ((place (value_at path left) ≡ place (value_at path right))
        × IsOrdered place entries left right)

-- Every row is in order with every row behind it.
abbrev pub IsSorted : (Value → ℕ) → List (String × Direction) → List Fields → Type 0
IsSorted place entries [] = Unit
IsSorted place entries (row ∷ rows) =
    All (IsOrdered place entries row) rows × IsSorted place entries rows

-- Two rows whose values have the same places.
abbrev pub is_tied : (Value → ℕ) → List (String × Direction) → Fields → Fields → Bool
is_tied place [] left right = true
is_tied place ((path, direction) ∷ entries) left right =
    eqb (place (value_at path left)) (place (value_at path right))
    && is_tied place entries left right

-- The values of a row that the entries name are among those that can be compared.
abbrev pub IsComparable : (Value → Type 0) → List (String × Direction) → Fields → Type 0
IsComparable Comparable entries row =
    All (λ (entry : String × Direction). Comparable (value_at entry.0 row)) entries

-- Values that compare by their places: undefined is first, equality is that of the places, and less than
-- is that of the places where neither value is undefined.
pub record ArePlaced (rt : Runtime) (Comparable : Value → Type 0) (place : Value → ℕ) : Type 0 where
  pub equal :
      (v w : Value) → Comparable v → Comparable w → rt.deep_equal v w ≡ eqb (place v) (place w)
  pub less :
      (v w : Value)
      → Comparable v
      → Comparable w
      → ¬ (v ≡ undefined)
      → ¬ (w ≡ undefined)
      → rt.less v w ≡ ltb (place v) (place w)
  pub first : (v : Value) → place undefined ≤ place v

pub IsOrdered-trans :
    (place : Value → ℕ) (entries : List (String × Direction)) (a b c : Fields)
    → IsOrdered place entries a b
    → IsOrdered place entries b c
    → IsOrdered place entries a c
IsOrdered-trans place [] a b c h k = tt
IsOrdered-trans place ((path, ascending) ∷ entries) a b c (inl h) (inl k) = inl (omega arith)
IsOrdered-trans place ((path, ascending) ∷ entries) a b c (inl h) (inr k) =
    let same = k.0 in inl (omega arith)
IsOrdered-trans place ((path, ascending) ∷ entries) a b c (inr h) (inl k) =
    let same = h.0 in inl (omega arith)
IsOrdered-trans place ((path, descending) ∷ entries) a b c (inl h) (inl k) = inl (omega arith)
IsOrdered-trans place ((path, descending) ∷ entries) a b c (inl h) (inr k) =
    let same = k.0 in inl (omega arith)
IsOrdered-trans place ((path, descending) ∷ entries) a b c (inr h) (inl k) =
    let same = h.0 in inl (omega arith)
IsOrdered-trans place ((path, direction) ∷ entries) a b c (inr h) (inr k) =
    inr (h.0 ∙ k.0, IsOrdered-trans place entries a b c h.1 k.1)

module _ (rt : Runtime) (Comparable : Value → Type 0) (place : Value → ℕ)
    (placed : ArePlaced rt Comparable place) where
  value_before-Strictly :
      (direction : Direction) (v w : Value)
      → Comparable v
      → Comparable w
      → rt.deep_equal v w ≡ false
      → (value_before rt direction v w ≡ true → Strictly direction (place v) (place w))
        × (value_before rt direction v w ≡ false → Strictly direction (place w) (place v))
  unfolding value_before
  value_before-Strictly ascending undefined w hv hw differ =
      let e = placed.equal undefined w hv hw in
      let f = placed.first w in (λ h. ground arith, λ h. cc)
  value_before-Strictly descending undefined w hv hw differ =
      let e = placed.equal undefined w hv hw in
      let f = placed.first w in (λ h. cc, λ h. ground arith)
  value_before-Strictly ascending v undefined hv hw differ =
      let e = placed.equal v undefined hv hw in
      let f = placed.first v in (λ h. cc, λ h. ground arith)
  value_before-Strictly descending v undefined hv hw differ =
      let e = placed.equal v undefined hv hw in
      let f = placed.first v in (λ h. ground arith, λ h. cc)
  value_before-Strictly ascending v w hv hw differ =
      let e = placed.equal v w hv hw in
      let l = placed.less w v hw hv (λ n. cc) (λ n. cc) in (λ h. ground arith, λ h. ground arith)
  value_before-Strictly descending v w hv hw differ =
      let e = placed.equal v w hv hw in
      let l = placed.less w v hw hv (λ n. cc) (λ n. cc) in (λ h. ground arith, λ h. ground arith)

  pub row_before-IsOrdered :
      (entries : List (String × Direction)) (left right : Fields)
      → IsComparable Comparable entries left
      → IsComparable Comparable entries right
      → (row_before rt entries left right ≡ true → IsOrdered place entries left right)
        × (row_before rt entries left right ≡ false → IsOrdered place entries right left)
  unfolding row_before
  row_before-IsOrdered [] left right hl hr = (λ h. tt, λ h. tt)
  row_before-IsOrdered ((path, direction) ∷ entries) left right hl hr =
      let a = value_at path left in
      let b = value_at path right in
      let e = placed.equal a b hl.0 hr.0 in
      elim (Bool-cases (rt.deep_equal a b)) [
        | inl equal ↦
            let same : place a ≡ place b = ground arith in
            let rest = row_before-IsOrdered entries left right hl.1 hr.1 in
            rw equal (λ h. inr (same, rest.0 h), λ h. inr (sym same, rest.1 h))
        | inr differ ↦
            let strict = value_before-Strictly direction a b hl.0 hr.0 differ in
            rw differ (λ h. inl (strict.0 h), λ h. inl (strict.1 h))
      ]

  pub row_before-tied :
      (more : List (String × Direction)) (z row next : Fields)
      → IsComparable Comparable more row
      → IsComparable Comparable more next
      → is_tied place more z row ≡ true
      → is_tied place more z next ≡ true
      → row_before rt more row next ≡ true
  unfolding row_before
  row_before-tied [] z row next hr hn tied tied' = refl
  row_before-tied ((path, direction) ∷ more) z row next hr hn tied tied' =
      let e = placed.equal (value_at path row) (value_at path next) hr.0 hn.0 in
      let equal : rt.deep_equal (value_at path row) (value_at path next) ≡ true = ground arith in
      rw equal (row_before-tied more z row next hr.1 hn.1 (ground arith) (ground arith))
