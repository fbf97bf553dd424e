-- ===== src/Document/Project.antt =====
-- src/document.js: projectDocument.
use syncio.Base.{
  String, Bool, true, false, ◌||◌, Option, none, some, List, [], ◌∷◌, Result, ok, err, type_error,
  ◌>>=◌, ◌>>◌, require, ◌==◌, any, all, if◌then◌else◌,
}
use syncio.Json.{Value, undefined, null, bool, num, obj, Fields, end, field}
use syncio.Document.Runtime.{number_equal, double_of}
use syncio.Document.Path.{own, set_mutable, delete_path}
use syncio.Document.Update.{read_path}

pub data Choice : Type 0 where
  includes excludes invalid : Choice

unfoldable pub choice_of : Value → Choice
unfolding number_equal double_of
choice_of (bool true) = includes
choice_of (bool false) = excludes
choice_of (num n) =
    if number_equal n (double_of 1)
    then includes
    else if number_equal n 0
    then excludes
    else invalid
choice_of _ = invalid

unfoldable pub fields_with : (Choice → Bool) → Fields → List String
fields_with wanted end = []
fields_with wanted (field key v fs) =
    let rest = fields_with wanted fs in if wanted (choice_of v) then key ∷ rest else rest

abbrev pub is_included : Choice → Bool
is_included includes = true
is_included _ = false

abbrev pub is_excluded : Choice → Bool
is_excluded excludes = true
is_excluded _ = false

abbrev pub is_invalid : Choice → Bool
is_invalid invalid = true
is_invalid _ = false

abbrev pub is_empty {ℓ} : {A : Type ℓ} → List A → Bool
is_empty [] = true
is_empty (x ∷ xs) = false

-- The fields that a projection names, in their order; the identity has been dealt with.
unfoldable pub include_fields : List String → Fields → Fields → Result Fields
include_fields [] document output = ok output
include_fields (key ∷ keys) document output =
    if key == "id" then include_fields keys document output else elim (read_path key document) [
      | none ↦ include_fields keys document output
      | some v ↦ do next ← set_mutable key v output; include_fields keys document next
    ]

unfoldable pub exclude_fields : List String → Fields → Result Fields
exclude_fields [] output = ok output
exclude_fields (key ∷ keys) output = do next ← delete_path key output; exclude_fields keys next

abbrev pub start_with_id : Bool → Option Value → Fields
start_with_id false (some id) = field "id" id end
start_with_id _ _ = end

unfoldable pub project_fields : Fields → Fields → Result Fields
unfolding fields_with choice_of include_fields exclude_fields
project_fields document projection =
    let included = fields_with is_included projection in
    let excluded = fields_with is_excluded projection in
    do
      require (is_empty (fields_with is_invalid projection)) type_error
      require (is_empty included || all (λ key. key == "id") excluded) type_error
      if is_empty included
          then exclude_fields excluded document
          else include_fields included document
              (start_with_id (any (λ key. key == "id") excluded) (own "id" document))

-- An absent, null or empty projection keeps the whole document.
unfoldable pub project_document : Fields → Value → Result Fields
unfolding project_fields
project_document document undefined = ok document
project_document document null = ok document
project_document document (obj end) = ok document
project_document document (obj (field key v fs)) = project_fields document (field key v fs)
project_document document _ = err type_error
