-- ===== src/Document/Aggregate/Sorting.antt =====
-- What $sort promises (src/document.js: sortDocuments).
use mathlib.Core.List.{Perm}
use mathlib.Core.List.Perm
use syncio.Base.{
  ℕ, ◌≡◌, refl, sym, ap, ◌∙◌, String, Bool, true, false, Bool-cases, inl, inr, List, [], ◌∷◌, All,
  select,
}
use syncio.Json.{Value, Fields}
use syncio.Document.Runtime.{Runtime}
use syncio.Document.Aggregate.{Direction, row_before, place_row, sort_rows}
use syncio.Document.Aggregate.Order.{
  IsOrdered, IsSorted, is_tied, IsComparable, ArePlaced, IsOrdered-trans, row_before-IsOrdered,
  row_before-tied,
}

-- A selection whose head is left.
select-left :
    (test : Fields → Bool) (row : Fields) (rows : List Fields)
    → test row ≡ false
    → select test (row ∷ rows) ≡ select test rows
select-left test row rows h = rw (h, select) refl

-- What is selected of two lists with one head.
select-cons :
    (test : Fields → Bool) (row : Fields) (rows others : List Fields)
    → select test rows ≡ select test others
    → select test (row ∷ rows) ≡ select test (row ∷ others)
select-cons test row rows others h = elim (Bool-cases (test row)) [
  | inl this ↦ rw (this, select) (ap (λ rest. row ∷ rest) h)
  | inr other ↦ rw (other, select) h
]

-- Of two rows of which not both are selected, the order is nothing to the selection.
select-swap :
    (test : Fields → Bool) (row next : Fields) (rows : List Fields)
    → (test row ≡ true → test next ≡ true → ⊥)
    → select test (next ∷ row ∷ rows) ≡ select test (row ∷ next ∷ rows)
select-swap test row next rows h = elim (Bool-cases (test next)) [
  | inl that ↦ elim (Bool-cases (test row)) [
    | inl this ↦ absurd (h this that)
    | inr other ↦
        select-cons test next (row ∷ rows) rows (select-left test row rows other)
        ∙ sym (select-left test row (next ∷ rows) other)
  ]
  | inr other ↦
      select-left test next (row ∷ rows) other
      ∙ select-cons test row rows (next ∷ rows) (sym (select-left test next rows other))
]

module _ (rt : Runtime) (Comparable : Value → Type 0) (place : Value → ℕ)
    (placed : ArePlaced rt Comparable place) where
  module _ (entries : List (String × Direction)) where
    place_row-All :
        (P : Fields → Type 0) (row : Fields) (rows : List Fields)
        → P row
        → All P rows
        → All P (place_row rt entries row rows)
    unfolding place_row
    place_row-All P row [] h all = (h, tt)
    place_row-All P row (next ∷ rows) h (here, there) =
        elim (Bool-cases (row_before rt entries row next)) [
          | inl before ↦ rw before (h, (here, there))
          | inr behind ↦ rw behind (here, place_row-All P row rows h there)
        ]

    IsOrdered-All :
        (row next : Fields) (rows : List Fields)
        → IsOrdered place entries row next
        → All (IsOrdered place entries next) rows
        → All (IsOrdered place entries row) rows
    IsOrdered-All row next [] h all = tt
    IsOrdered-All row next (third ∷ rows) h (here, there) =
        (IsOrdered-trans place entries row next third h here, IsOrdered-All row next rows h there)

    place_row-IsSorted :
        (row : Fields) (rows : List Fields)
        → IsComparable Comparable entries row
        → All (IsComparable Comparable entries) rows
        → IsSorted place entries rows
        → IsSorted place entries (place_row rt entries row rows)
    unfolding place_row
    place_row-IsSorted row [] h all sorted = (tt, tt)
    place_row-IsSorted row (next ∷ rows) h (here, there) (first, rest) =
        let ordered = row_before-IsOrdered rt Comparable place placed entries row next h here in
        elim (Bool-cases (row_before rt entries row next)) [
          | inl before ↦
              let ahead = ordered.0 before in
              rw before ((ahead, IsOrdered-All row next rows ahead first), (first, rest))
          | inr behind ↦ rw behind (
            place_row-All (IsOrdered place entries next) row rows (ordered.1 behind) first,
            place_row-IsSorted row rows h there rest,
          )
        ]

    place_row-Perm :
        (row : Fields) (rows : List Fields) → Perm (place_row rt entries row rows) (row ∷ rows)
    unfolding place_row
    place_row-Perm row [] = Perm.rfl
    place_row-Perm row (next ∷ rows) = elim (Bool-cases (row_before rt entries row next)) [
      | inl before ↦ rw before Perm.rfl
      | inr behind ↦
          rw behind
            (Perm.trans (Perm.cons next (place_row-Perm row rows)) (Perm.swap row next rows))
    ]

    sort_rows-All :
        (P : Fields → Type 0) (rows : List Fields) → All P rows → All P (sort_rows rt entries rows)
    unfolding sort_rows
    sort_rows-All P [] all = tt
    sort_rows-All P (row ∷ rows) (here, there) =
        place_row-All P row (sort_rows rt entries rows) here (sort_rows-All P rows there)

    place_row-select :
        (z row : Fields) (rows : List Fields)
        → IsComparable Comparable entries row
        → All (IsComparable Comparable entries) rows
        → select (is_tied place entries z) (place_row rt entries row rows)
          ≡ select (is_tied place entries z) (row ∷ rows)
    unfolding place_row
    place_row-select z row [] h all = refl
    place_row-select z row (next ∷ rows) h (here, there) =
        let rest = place_row-select z row rows h there in
        let tied = row_before-tied rt Comparable place placed entries z row next h here in
        elim (Bool-cases (row_before rt entries row next)) [
          | inl before ↦ rw before refl
          | inr behind ↦ rw behind (
              select-cons (is_tied place entries z) next (place_row rt entries row rows)
                (row ∷ rows) rest
              ∙ select-swap (is_tied place entries z) row next rows
                  (λ a b. let wrong : true ≡ false = sym (tied a b) ∙ behind in cc))
        ]

    -- Sorting loses no row and makes none; each row that it leaves is in order with every row behind it, by
    -- the places of their values, entry after entry and each in its direction; and rows whose values have
    -- the same places stay in the order in which they came, if the values that the entries name compare
    -- by their places.
    pub sort_rows-IsSorted :
        (rows : List Fields)
        → All (IsComparable Comparable entries) rows
        → Perm (sort_rows rt entries rows) rows
          × IsSorted place entries (sort_rows rt entries rows)
          × ((z : Fields)
              → select (is_tied place entries z) (sort_rows rt entries rows)
                ≡ select (is_tied place entries z) rows)
    unfolding sort_rows
    sort_rows-IsSorted [] all = (Perm.rfl, tt, λ z. refl)
    sort_rows-IsSorted (row ∷ rows) (here, there) =
        let (kept, sorted, stable) = sort_rows-IsSorted rows there in
        let next = sort_rows rt entries rows in
        let all = sort_rows-All (IsComparable Comparable entries) rows there in
        (
          Perm.trans (place_row-Perm row next) (Perm.cons row kept),
          place_row-IsSorted row next here all sorted,
          λ z.
              place_row-select z row next here all
              ∙ select-cons (is_tied place entries z) row next rows (stable z),
        )
