-- ===== src/Indexed.antt =====
-- src/indexed.js: the definition of an index, and DocumentIndex. `stringify` is JSON.stringify of
-- an array.
pub mod Listed
pub mod Kept
pub mod Rebuilt
pub mod Catalog
pub mod Query
pub mod Guard
pub mod Tables
mod Examples
use syncio.Base.{
  String, Bool, true, false, not, ◌&&◌, Option, none, some, List, [], ◌∷◌, ◌++◌, Result, ok, err,
  ◌>>=◌, ◌>>◌, require, unique_index_violation, any, select, map, if◌then◌else◌,
}
use syncio.Base.Maps.{Map, get, put, delete}
use syncio.Json.{Value, undefined, truthy, property}
use syncio.Document.Runtime.{strict_equal}
use syncio.Document.Path.{resolve_values, split_path}
use syncio.Document.Aggregate.{first_or_undefined}
use syncio.Document.Project.{is_empty}

pub record Definition : Type 0 where
  pub name : String
  pub fields : List String
  pub unique : Bool
  pub sparse : Bool

-- `this.map`: the sets of identities by the text of their values.
abbrev pub Index : Type 0
Index = Map (List Value)

-- firstPathValue; the fields of an index are not empty, so it does not throw.
unfoldable pub first_value : Value → String → Value
first_value document path = first_or_undefined (resolve_values document (split_path path))

unfoldable pub field_values : List String → Value → List Value
unfolding first_value
field_values fields document = map (λ path. first_value document path) fields

abbrev pub is_missing : Value → Bool
is_missing undefined = true
is_missing _ = false

-- A set of identities, in the order of their addition.
unfoldable pub has_id : Value → List Value → Bool
unfolding strict_equal
has_id id ids = any (strict_equal id) ids

unfoldable pub add_id : Value → List Value → List Value
unfolding has_id
add_id id ids = if has_id id ids then ids else ids ++ id ∷ []

unfoldable pub remove_id : Value → List Value → List Value
unfolding strict_equal
remove_id id ids = select (λ other. not (strict_equal id other)) ids

-- `this.map.get(key) ?? new Set()`
abbrev pub or_empty : Option (List Value) → List Value
or_empty none = []
or_empty (some ids) = ids

unfoldable pub ids_at : String → Index → List Value
ids_at key index = or_empty (get key index)

-- `add` behind the key.
unfoldable pub file_id : Bool → String → Value → Index → Result Index
unfolding ids_at add_id has_id
file_id unique key id index = do
  require
      (not (unique && (not (is_empty (ids_at key index)) && not (has_id id (ids_at key index)))))
      unique_index_violation
  ok (put key (add_id id (ids_at key index)) index)

-- `remove` behind the key; a set that is empty then is dropped.
unfoldable pub keep_ids : String → List Value → Index → Index
keep_ids key [] index = delete key index
keep_ids key (id ∷ ids) index = put key (id ∷ ids) index

unfoldable pub unfile_from : Option (List Value) → String → Value → Index → Index
unfile_from none key id index = index
unfile_from (some ids) key id index = keep_ids key (remove_id id ids) index

unfoldable pub unfile_id : String → Value → Index → Index
unfolding keep_ids remove_id unfile_from
unfile_id key id index = unfile_from (get key index) key id index

-- A document without a key is in no set.
unfoldable pub add_under : Option String → Bool → Value → Index → Result Index
unfolding file_id
add_under none unique id index = ok index
add_under (some key) unique id index = file_id unique key id index

unfoldable pub remove_under : Option String → Value → Index → Index
unfolding unfile_id
remove_under none id index = index
remove_under (some key) id index = unfile_id key id index

module _ (stringify : List Value → String) where
  -- The text under which a document is filed; a sparse index leaves out one without a value.
  unfoldable pub entry_key : Definition → Value → Option String
  unfolding field_values
  entry_key definition document =
      if definition.sparse && any is_missing (field_values definition.fields document)
      then none
      else some (stringify (field_values definition.fields document))

  unfoldable pub add_document : Definition → Value → Index → Result Index
  unfolding add_under
  add_document definition document index =
      add_under (entry_key definition document) definition.unique (property "id" document) index

  unfoldable pub remove_document : Definition → Value → Index → Index
  unfolding remove_under
  remove_document definition document index =
      remove_under (entry_key definition document) (property "id" document) index

  unfoldable pub add_documents : Definition → List Value → Index → Result Index
  add_documents definition [] index = ok index
  add_documents definition (document ∷ documents) index = do
    next ← add_document definition document index
    add_documents definition documents next

  unfoldable pub rebuild : Definition → List Value → Result Index
  rebuild definition documents = add_documents definition documents []

  unfoldable pub find : List Value → Index → List Value
  unfolding ids_at
  find values index = ids_at (stringify values) index

  -- The part of #updateIndexes for one index.
  unfoldable pub clear_index : Definition → Value → Index → Index
  clear_index definition before index =
      if truthy before then remove_document definition before index else index

  unfoldable pub update_index : Definition → Value → Value → Index → Result Index
  unfolding clear_index
  update_index definition before after index =
      let cleared = clear_index definition before index in
      if truthy after then add_document definition after cleared else ok cleared
