-- ===== src/Document/Examples.antt =====
-- Runs of queries, updates and pipelines on concrete documents, and witnesses (src/document.js).
use mathlib.Core.List.{Perm}
use syncio.Base.{
  ℕ, suc, eqb, select, ◌≡◌, ◌⊎◌, refl, String, Bool, true, false, inl, inr, none, some, List, [],
  ◌∷◌, Option, ok, err, id_changed, type_error, ◌+◌, ◌*◌, ◌/◌, ltb, leb, arith,
}
use syncio.Json.{
  Value, undefined, bool, num, str, arr, obj, Items, nil, cons, Fields, end, field, get_field,
  set_field, is_finite,
}
use syncio.Database.Samples.{structural, equal}
use syncio.Document.Runtime.{Runtime, strict_equal, natural_of, double_of}
use syncio.Document.Path.{
  set_mutable, get_path, split_path, resolve_values, set_parts, own, read_direct, own_property,
  delete_path, delete_parts, delete_field,
}
use syncio.Document.Match.{is_operator, matches, query_key, has_operator, operator_of}
use syncio.Document.Update.{apply_document_update, only_operators, update_operator}
use syncio.Document.Update.Setting.{IsWritten, set_mutable-IsWritten, set_update, path_query}
use syncio.Document.Update.Identity.{get_field-apply_document_update}
use syncio.Document.Project.{project_document}
use syncio.Document.Aggregate.{
  Group, Direction, descending, ascending, sort_rows, group_rows, aggregate_documents, stage_of,
  natural_spec, output_field, filter_result, first_path_value,
}
use syncio.Document.Aggregate.Stages.{match_with, both, aggregate_documents-both}
use syncio.Document.Aggregate.Sorting.{sort_rows-IsSorted}
use syncio.Document.Aggregate.Order.{ArePlaced, is_tied, IsComparable, IsSorted}
use syncio.Document.Aggregate.Groups.{IsGrouped, group_rows-IsGrouped}

-- The order of non-negative doubles is that of their patterns.
abbrev number_less : Value → Value → Bool
number_less (num m) (num n) = ltb m n
number_less _ _ = false

abbrev number_at_most : Value → Value → Bool
number_at_most (num m) (num n) = leb m n
number_at_most _ _ = false

abbrev text_json : Value → Option String
text_json (str s) = some s
text_json _ = none

abbrev sample : Runtime
sample = record {
  deep_equal = structural.deep_equal;
  less = number_less;
  at_most = number_at_most;
  add = λ m n. m + n;
  multiply = λ m n. m * n;
  divide = λ m n. m / n;
  to_json = text_json;
}

abbrev note : Value → Fields
note v = field "id" (str "n") (field "a" (obj (field "b" v end)) end)

abbrev one : Value
one = num 0x3FF0000000000000

abbrev two : Value
two = num 0x4000000000000000

queries :
    (matches sample (obj (note one)) (path_query "a.b" (obj (field "$gte" one end))) ≡ ok true)
    × (matches sample (obj (note one)) (path_query "a.c" (obj (field "$exists" (bool false) end)))
        ≡ ok true)
    × (matches sample (obj (note one)) (path_query "" one) ≡ err type_error)
    × (matches sample (obj (note one)) (obj (field "$text" one end)) ≡ err type_error)
unfolding matches get_path is_operator query_key has_operator operator_of resolve_values split_path
queries = (refl, refl, refl, refl)

-- A path that goes through a value that is no object is refused, and so is a new identity.
updates :
    (apply_document_update sample (obj (note one)) (set_update "a.b.c" two) ≡ err type_error)
    × (apply_document_update sample (obj (note one)) (set_update "id" two) ≡ err id_changed)
    × (apply_document_update sample (obj (note one)) (set_update "a.b" two) ≡ ok (note two))
    × (apply_document_update sample
          (obj (note one))
          (obj (field "$inc" (obj (field "a.b" one end)) end))
        ≡ ok (note (num (0x3FF0000000000000 + 0x3FF0000000000000))))
    × (apply_document_update sample
          (obj (note one))
          (obj (field "$unset" (obj (field "a" one end)) end))
        ≡ ok (field "id" (str "n") end))
unfolding apply_document_update has_operator only_operators update_operator set_mutable split_path
    set_parts own get_field strict_equal set_field is_finite read_direct own_property delete_path
    delete_parts delete_field
updates = (refl, refl, refl, refl, refl)

projections :
    (project_document (note one) (obj (field "a" one end)) ≡ ok (note one))
    × (project_document (note one) (obj (field "a.b" (bool false) end))
        ≡ ok (field "id" (str "n") (field "a" (obj end) end)))
    × (project_document (note one) (obj (field "a" one (field "b" (bool false) end)))
        ≡ err type_error)
unfolding project_document is_finite read_direct split_path own_property set_mutable set_parts
    set_field delete_path delete_parts delete_field
projections = (refl, refl, refl)

stages :
    (aggregate_documents sample (obj (field "$limit" one end) ∷ []) (note one ∷ note two ∷ [])
      ≡ ok (note one ∷ []))
    × (aggregate_documents sample (obj (field "$skip" one end) ∷ []) (note one ∷ note two ∷ [])
        ≡ ok (note two ∷ []))
    × (aggregate_documents sample
          (obj (field "$count" (str "n") end) ∷ [])
          (note one ∷ note two ∷ [])
        ≡ ok (field "n" two end ∷ []))
    × (aggregate_documents sample (obj (field "$count" (str "2n") end) ∷ []) [] ≡ err type_error)
unfolding aggregate_documents stage_of natural_spec natural_of output_field double_of
stages = (refl, refl, refl, refl)

set_mutable-IsWritten_example : IsWritten "a.b" two (note one) (note two)
unfolding set_mutable split_path set_parts own set_field
set_mutable-IsWritten_example =
    set_mutable-IsWritten "a.b" two (note one) (note two) (refl, (refl, tt)) refl

get_field-apply_document_update_example : get_field "id" (note two) ≡ str "n"
unfolding apply_document_update get_field has_operator only_operators update_operator set_mutable
    split_path set_parts own strict_equal set_field
get_field-apply_document_update_example =
    get_field-apply_document_update sample (note one) (note two) (set_update "a.b" two) "n" refl
      refl

abbrev tagged : Fields
tagged = field "id" (str "n") (field "tags" (arr (cons one nil)) end)

abbrev candidates : Items
candidates = cons one (cons two nil)

abbrev above : Value → Value
above v = path_query "a.b" (obj (field "$gt" v end))

abbrev below : Value → Value
below v = path_query "a.b" (obj (field "$lt" v end))

abbrev three : Value
three = num 0x4008000000000000

aggregate_documents-both_example :
    aggregate_documents sample
      (obj (field "$skip" (num 0) end)
        ∷ match_with (both (above one) (below three))
        ∷ obj (field "$limit" one end)
        ∷ [])
      (note one ∷ note two ∷ note three ∷ [])
    ≡ ok (note two ∷ [])
unfolding aggregate_documents stage_of natural_spec natural_of filter_result matches query_key
    get_path has_operator operator_of resolve_values split_path
aggregate_documents-both_example =
    aggregate_documents-both sample (obj (field "$skip" (num 0) end) ∷ [])
      (obj (field "$limit" one end) ∷ []) (above one) (below three)
      (note one ∷ note two ∷ note three ∷ []) (note two ∷ []) refl

-- The numbers of the sample, and undefined before them.
abbrev IsNumeric : Value → Type 0
IsNumeric v = (v ≡ undefined) ⊎ (n : ℕ) × (v ≡ num n)

abbrev number_place : Value → ℕ
number_place (num n) = suc n
number_place _ = 0

numbers_equal :
    (v w : Value)
    → IsNumeric v
    → IsNumeric w
    → sample.deep_equal v w ≡ eqb (number_place v) (number_place w)
unfolding equal
numbers_equal v w (inl a) (inl b) = rw (a, b) refl
numbers_equal v w (inl a) (inr (n, b)) = rw (a, b) (ground arith)
numbers_equal v w (inr (m, a)) (inl b) = rw (a, b) (ground arith)
numbers_equal v w (inr (m, a)) (inr (n, b)) = rw (a, b) (ground arith)

numbers_less :
    (v w : Value)
    → IsNumeric v
    → IsNumeric w
    → ¬ (v ≡ undefined)
    → ¬ (w ≡ undefined)
    → sample.less v w ≡ ltb (number_place v) (number_place w)
numbers_less v w (inl a) hw nv nw = absurd (nv a)
numbers_less v w hv (inl b) nv nw = absurd (nw b)
numbers_less v w (inr (m, a)) (inr (n, b)) nv nw = rw (a, b) (ground arith)

numbers-ArePlaced : ArePlaced sample IsNumeric number_place
numbers-ArePlaced = record { equal = numbers_equal; less = numbers_less; first = λ v. omega arith }

-- By one number downwards and by another upwards.
abbrev by_two : List (String × Direction)
by_two = ("a", descending) ∷ ("b", ascending) ∷ []

abbrev pair : Value → Value → Fields
pair v w = field "a" v (field "b" w end)

abbrev pairs : List Fields
pairs = pair one three ∷ pair two two ∷ pair one one ∷ []

compares : (m n : ℕ) → IsComparable IsNumeric by_two (pair (num m) (num n))
unfolding resolve_values split_path
compares m n = (inr (m, refl), (inr (n, refl), tt))

sorted_pairs : sort_rows sample by_two pairs ≡ pair two two ∷ pair one one ∷ pair one three ∷ []
unfolding sort_rows resolve_values split_path equal
sorted_pairs = refl

sort_rows-IsSorted_example :
    Perm (sort_rows sample by_two pairs) pairs
    × IsSorted number_place by_two (sort_rows sample by_two pairs)
    × ((z : Fields)
        → select (is_tied number_place by_two z) (sort_rows sample by_two pairs)
          ≡ select (is_tied number_place by_two z) pairs)
unfolding resolve_values split_path
sort_rows-IsSorted_example =
    sort_rows-IsSorted sample IsNumeric number_place numbers-ArePlaced by_two pairs (
      compares 0x3FF0000000000000 0x4008000000000000,
      (
        compares 0x4000000000000000 0x4000000000000000,
        (compares 0x3FF0000000000000 0x3FF0000000000000, tt),
      ),
    )

abbrev person : String → String → Fields
person name team = field "id" (str name) (field "team" (str team) end)

abbrev group : String → List Fields → Group
group name rows = record { key = some name; id = str name; rows = rows }

abbrev people : List Fields
people = person "x" "red" ∷ person "y" "blue" ∷ person "z" "red" ∷ []

abbrev teams : List Group
teams =
    group "red" (person "x" "red" ∷ person "z" "red" ∷ [])
    ∷ group "blue" (person "y" "blue" ∷ [])
    ∷ []

group_rows-IsGrouped_example : IsGrouped sample (str "$team") people teams
unfolding group_rows is_operator first_path_value get_path resolve_values split_path
group_rows-IsGrouped_example = group_rows-IsGrouped sample (str "$team") teams people refl
