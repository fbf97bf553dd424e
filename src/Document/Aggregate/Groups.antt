-- ===== src/Document/Aggregate/Groups.antt =====
-- What $group promises (src/document.js: groupDocuments).
use mathlib.Core.List.{Perm, perm_middle, append_assoc, append-nil}
use mathlib.Core.List.Perm
use syncio.Base.{
  ◌≡◌, refl, sym, ap, subst, ◌∙◌, String, true, false, Bool-cases, inl, inr, List, [], ◌∷◌, ◌++◌,
  Option, none, some, All, All-append, ok, >>=-eq-ok, ok-injective, eq_iff,
}
use syncio.Json.{Value, Fields}
use syncio.Document.Runtime.{Runtime}
use syncio.Document.Aggregate.{Group, same_key, add_to_group, evaluate_expression, group_rows}

-- The rows of all the groups.
abbrev pub rows_of : List Group → List Fields
rows_of [] = []
rows_of (g ∷ gs) = g.rows ++ rows_of gs

add_to_group-Perm :
    (key : Option String) (id : Value) (row : Fields) (gs : List Group)
    → Perm (rows_of (add_to_group key id row gs)) (row ∷ rows_of gs)
unfolding add_to_group
add_to_group-Perm key id row [] = Perm.rfl
add_to_group-Perm key id row (g ∷ gs) = elim (Bool-cases (same_key g.key key)) [
  | inl same ↦
      rw (same, append_assoc g.rows (row ∷ []) (rows_of gs)) (perm_middle g.rows (rows_of gs))
  | inr other ↦ rw other (
      Perm.trans (Perm.append_left g.rows (add_to_group-Perm key id row gs))
        (perm_middle g.rows (rows_of gs)))
]

append_one-Perm : (row : Fields) (rows : List Fields) → Perm (row ∷ rows) (rows ++ row ∷ [])
append_one-Perm row rows =
    Perm.symm
      (subst (λ x. Perm (rows ++ row ∷ []) (row ∷ x)) (append-nil rows) (perm_middle rows []))

same_key-≡ : (k l : Option String) → same_key k l ≡ true → k ≡ l
same_key-≡ none none h = refl
same_key-≡ none (some t) h = cc
same_key-≡ (some s) none h = cc
same_key-≡ (some s) (some t) h = ap some ((eq_iff s t).0 h)

same_key_refl : (k : Option String) → same_key k k ≡ true
same_key_refl none = refl
same_key_refl (some s) = (eq_iff s s).1 refl

same_key-differs : (k l : Option String) → same_key k l ≡ false → ¬ (k ≡ l)
same_key-differs k l other same =
    let impossible : true ≡ false = sym (same_key_refl k) ∙ ap (same_key k) same ∙ other in cc

-- No group of the list has the key.
abbrev pub Fresh : Option String → List Group → Type 0
Fresh key = All (λ (g : Group). ¬ (g.key ≡ key))

-- No two groups of the list have the same key.
abbrev pub Apart : List Group → Type 0
Apart [] = Unit
Apart (g ∷ gs) = Fresh g.key gs × Apart gs

add_to_group-Fresh :
    (key other : Option String) (id : Value) (row : Fields) (gs : List Group)
    → ¬ (key ≡ other)
    → Fresh other gs
    → Fresh other (add_to_group key id row gs)
unfolding add_to_group
add_to_group-Fresh key other id row [] apart fresh = (apart, tt)
add_to_group-Fresh key other id row (g ∷ gs) apart (here, there) =
    elim (Bool-cases (same_key g.key key)) [
      | inl same ↦ rw same (here, there)
      | inr differs ↦ rw differs (here, add_to_group-Fresh key other id row gs apart there)
    ]

add_to_group-Apart :
    (key : Option String) (id : Value) (row : Fields) (gs : List Group)
    → Apart gs
    → Apart (add_to_group key id row gs)
unfolding add_to_group
add_to_group-Apart key id row [] apart = (tt, tt)
add_to_group-Apart key id row (g ∷ gs) (fresh, apart) = elim (Bool-cases (same_key g.key key)) [
  | inl same ↦ rw same (fresh, apart)
  | inr differs ↦ rw differs (
    add_to_group-Fresh key g.key id row gs (λ e. same_key-differs g.key key differs (sym e)) fresh,
    add_to_group-Apart key id row gs apart,
  )
]

module _ (rt : Runtime) (expression : Value) where
  -- A row that has the key as the text of its value.
  abbrev pub HasKey : Option String → Fields → Type 0
  HasKey key row =
      (id : Value) × (evaluate_expression row expression ≡ ok id) × (rt.to_json id ≡ key)

  add_to_group-HasKey :
      (key : Option String) (id : Value) (row : Fields) (gs : List Group)
      → HasKey key row
      → All (λ (g : Group). All (HasKey g.key) g.rows) gs
      → All (λ (g : Group). All (HasKey g.key) g.rows) (add_to_group key id row gs)
  unfolding add_to_group
  add_to_group-HasKey key id row [] has all = ((has, tt), tt)
  add_to_group-HasKey key id row (g ∷ gs) has (here, there) =
      elim (Bool-cases (same_key g.key key)) [
        | inl same ↦ rw same (
          All-append (HasKey g.key) g.rows (row ∷ []) here
              (subst (λ k. HasKey k row) (sym (same_key-≡ g.key key same)) has, tt),
          there,
        )
        | inr other ↦ rw other (here, add_to_group-HasKey key id row gs has there)
      ]

  -- A group with a first row: its `_id` is the value of that row, and its key the text of that value.
  abbrev pub HasId : Group → Type 0
  HasId g =
      (first : Fields) × (others : List Fields) × (g.rows ≡ first ∷ others)
      × (evaluate_expression first expression ≡ ok g.id)
      × (rt.to_json g.id ≡ g.key)

  add_to_group-HasId :
      (id : Value) (row : Fields) (gs : List Group)
      → evaluate_expression row expression ≡ ok id
      → All HasId gs
      → All HasId (add_to_group (rt.to_json id) id row gs)
  unfolding add_to_group
  add_to_group-HasId id row [] evaluated all = ((row, [], refl, evaluated, refl), tt)
  add_to_group-HasId id row (g ∷ gs) evaluated ((first, others, rows, of_first, of_key), there) =
      elim (Bool-cases (same_key g.key (rt.to_json id))) [
        | inl same ↦
            rw same
              ((first, others ++ row ∷ [], ap (λ x. x ++ row ∷ []) rows, of_first, of_key), there)
        | inr other ↦
            rw other (
              (first, others, rows, of_first, of_key),
              add_to_group-HasId id row gs evaluated there,
            )
      ]

  -- What grouping promises of the groups that it leaves.
  pub record IsGrouped (rows : List Fields) (gs : List Group) : Type 0 where
    pub kept : Perm (rows_of gs) rows
    pub alike : All (λ (g : Group). All (HasKey g.key) g.rows) gs
    pub identified : All HasId gs
    pub apart : Apart gs

  group_rows_on-IsGrouped :
      (before rows : List Fields) (gs hs : List Group)
      → IsGrouped before gs
      → group_rows rt expression gs rows ≡ ok hs
      → IsGrouped (before ++ rows) hs
  unfolding group_rows
  group_rows_on-IsGrouped before [] gs hs g h =
      rw (append-nil before) (subst (λ x. IsGrouped before x) (ok-injective h) g)
  group_rows_on-IsGrouped before (row ∷ rows) gs hs g h =
      let (id, evaluated, h₁) = >>=-eq-ok (evaluate_expression row expression) _ h in
      let key = rt.to_json id in
      subst (λ x. IsGrouped x hs) (append_assoc before (row ∷ []) rows)
        (group_rows_on-IsGrouped (before ++ row ∷ []) rows (add_to_group key id row gs) hs
          (record {
            kept =
                Perm.trans (add_to_group-Perm key id row gs)
                  (Perm.trans (Perm.cons row g.kept) (append_one-Perm row before));
            alike = add_to_group-HasKey key id row gs (id, evaluated, refl) g.alike;
            identified = add_to_group-HasId id row gs evaluated g.identified;
            apart = add_to_group-Apart key id row gs g.apart;
          })
          h₁)

  -- Where grouping returns, every row is in the groups as often as it came; all rows of a group have the
  -- key of the group as the JSON of their value; no two groups have the same key; and each group has a
  -- first row, whose value is the `_id` of the group.
  pub group_rows-IsGrouped :
      (gs : List Group) (rows : List Fields)
      → group_rows rt expression [] rows ≡ ok gs
      → IsGrouped rows gs
  group_rows-IsGrouped gs rows h =
      group_rows_on-IsGrouped [] rows [] gs
        (record { kept = Perm.rfl; alike = tt; identified = tt; apart = tt }) h
