-- ===== src/Indexed/Examples.antt =====
-- Runs of the indexes on concrete inputs, and witnesses (src/indexed.js).
use syncio.Database.Events.{append_change, prune, record_event, make_event}
use syncio.Wal.{append, check_append}
use syncio.Database.Commit.{commit_events, commit_draft}
use syncio.Database.Collection.{perform, decide_upsert, decide_remove, event_write, read}
use syncio.Database.Replay.{store}
use syncio.Document.Path.{resolve_values, split_path}
use syncio.Base.{
  ◌≡◌, ◌≢◌, ◌↔◌, refl, ap, String, true, false, [], ◌∷◌, List, ok, err, none, eq_iff,
  unique_index_violation,
}
use syncio.Base.Maps.{get, put, delete}
use syncio.Json.{
  Value, bool, str, arr, obj, nil, cons, end, field, property, truthy, json_compatible,
  validate_collection_name, valid_collection_name, validate_record, validate_id, valid_id,
}
use syncio.Document.Runtime.{Runtime, strict_equal}
use syncio.Document.Match.{matches, is_operator, items_list}
use syncio.Database.State.{Collection, collection_of}
use syncio.Database.Run.{created}
use syncio.Database.State.{Database}
use syncio.Indexed.Tables.{IndexedDatabase}
use syncio.Indexed.Tables.Writes.{Platform, indexed_upsert}
use syncio.Indexed.Tables.Kept.{IsIndexed}
use syncio.Indexed.Tables.Followed.{indexed_upsert-IsIndexed}
use syncio.Database.Samples.{structural, digest, env, ok_io, equal, equal→≡, ≡→equal}
use syncio.Database.Transaction.{run_work, all_in, touch, put_in}
use syncio.Indexed.{
  Definition, Index, rebuild, find, has_id, add_documents, add_document, entry_key, remove_document,
}
use syncio.Indexed.Kept.{IsKeyed, IsListed}
use syncio.Indexed.Rebuilt.{IsUnique, rebuild-IsListed, rebuild-IsUnique}
use syncio.Indexed.Catalog.{all_distinct}
use syncio.Indexed.Tables.Removed.{indexed_remove-IsIndexed}
use syncio.Indexed.Tables.Writes.{indexed_remove}
use syncio.Indexed.Query.Lookup.{on_field, find-iff-matches, find-misses}
use syncio.Indexed.Guard.{GuardedWork, returns, puts, guard}
use syncio.Indexed.Guard.Sound.{IsSound, IsKeyed-put}
use syncio.Indexed.Guard.Runs.{guard-IsSound}

-- JSON of an array with one text, told apart from all others.
abbrev texts : List Value → String
texts (str s ∷ []) = s
texts _ = ""

abbrev runtime : Runtime
runtime = record {
  deep_equal = equal;
  less = λ v w. false;
  at_most = λ v w. false;
  add = λ m n. m;
  multiply = λ m n. m;
  divide = λ m n. m;
  to_json = λ v. none;
}

abbrev row : String → Value → Value
row id a = obj (field "id" (str id) (field "a" a end))

abbrev by_a : Definition
by_a = on_field "a" true

abbrev one : Collection
one = put "r" (row "r" (str "x")) []

IsKeyed-empty : IsKeyed []
unfolding IsKeyed get
IsKeyed-empty id document h = cc

-- A collection of one record is keyed and is a map.
one-IsKeyed : (a : Value) → IsKeyed (put "r" (row "r" a) [])
unfolding property truthy
one-IsKeyed a = IsKeyed-put [] "r" (row "r" a) IsKeyed-empty refl refl

abbrev filed : Index
filed = ("x", str "r" ∷ []) ∷ []

one-IsListed : IsListed texts by_a one filed
unfolding put get rebuild add_documents add_document entry_key resolve_values property split_path
one-IsListed = rebuild-IsListed texts by_a one (refl, tt) (one-IsKeyed (str "x")) refl

-- A database with an index that is not unique, in which the record is written again.
abbrev shared_a : Definition
shared_a = on_field "a" false

shared-IsListed : IsListed texts shared_a one filed
unfolding put get rebuild add_documents add_document entry_key resolve_values property split_path
shared-IsListed = rebuild-IsListed texts shared_a one (refl, tt) (one-IsKeyed (str "x")) refl

abbrev platform : Platform
platform = record {
  equality = structural;
  digest = digest;
  stringify = texts;
  property_name = λ v. "";
}

abbrev base : Database
base = record (created 256 10 "db") {
  state = record (created 256 10 "db").state { collections = ("t", one) ∷ [] };
}

abbrev database : IndexedDatabase
database = record {
  base = base;
  definitions = ("t", shared_a ∷ []) ∷ [];
  indexes = ("t", ("a", filed) ∷ []) ∷ [];
}

upsert_moves :
    (indexed_upsert platform ok_io env "t" (row "r" (str "y")) database).1.indexes
    ≡ ("t", ("a", ("y", str "r" ∷ []) ∷ []) ∷ []) ∷ []
unfolding indexed_upsert get truthy property validate_collection_name valid_collection_name
    validate_id valid_id perform decide_upsert validate_record commit_events event_write
    commit_draft append check_append append_change prune record_event make_event add_document
    entry_key put read collection_of remove_document resolve_values split_path delete
upsert_moves = refl

indexed_upsert-IsIndexed_example :
    IsIndexed texts "t" (indexed_upsert platform ok_io env "t" (row "r" (str "y")) database).1
unfolding get all_distinct collection_of put indexed_upsert truthy property validate_collection_name
    valid_collection_name validate_id valid_id perform decide_upsert validate_record commit_events
    event_write commit_draft append check_append append_change prune record_event make_event
    add_document entry_key
indexed_upsert-IsIndexed_example =
    indexed_upsert-IsIndexed platform ok_io env "t" database (row "r" (str "y")) (row "r" (str "y"))
      refl refl (one-IsKeyed (str "x")) ((filed, refl, shared-IsListed), tt) refl

indexed_remove-IsIndexed_example :
    IsIndexed texts "t" (indexed_remove platform ok_io env "t" (str "r") database).1
unfolding get all_distinct collection_of put indexed_remove truthy property validate_collection_name
    valid_collection_name validate_id valid_id perform decide_remove read commit_events event_write
    commit_draft append check_append append_change prune record_event make_event
indexed_remove-IsIndexed_example =
    indexed_remove-IsIndexed platform ok_io env "t" database (str "r") true refl
      (one-IsKeyed (str "x")) ((filed, refl, shared-IsListed), tt) refl

abbrev two : Collection
two = put "s" (row "s" (str "y")) one

two-IsKeyed : IsKeyed two
unfolding property truthy
two-IsKeyed = IsKeyed-put one "s" (row "s" (str "y")) (one-IsKeyed (str "x")) refl refl

rebuild-IsUnique_example : IsUnique texts by_a two
unfolding put get rebuild add_documents add_document entry_key resolve_values split_path property
rebuild-IsUnique_example =
    rebuild-IsUnique texts by_a two {index = ("x", str "r" ∷ []) ∷ ("y", str "s" ∷ []) ∷ []}
      (refl, (refl, tt)) two-IsKeyed refl refl

-- A second record with the same value is refused.
rebuild_refuses :
    rebuild texts by_a (row "r" (str "x") ∷ row "s" (str "x") ∷ []) ≡ err unique_index_violation
unfolding rebuild add_documents add_document entry_key get put resolve_values split_path property
rebuild_refuses = refl

abbrev definition_of_a : Value
definition_of_a = obj (field "field" (str "a") (field "unique" (bool true) end))

equal_iff : (u : Value) → (equal u (str "x") ≡ true) ↔ (u ≡ str "x")
equal_iff u = (equal→≡ u (str "x"), ≡→equal u (str "x"))

texts-apart : (u : Value) → json_compatible u ≡ true → texts (u ∷ []) ≡ "x" → u ≡ str "x"
texts-apart (str s) json h = ap str h
texts-apart _ json h = let no : false ≡ true = (eq_iff "" "x").1 h in cc

find-iff-matches_example :
    matches runtime (row "r" (str "x")) (obj (field "a" (str "x") end))
    ≡ ok (has_id (str "r") (find texts (str "x" ∷ []) filed))
unfolding IsListed entry_key resolve_values split_path get put is_operator json_compatible
find-iff-matches_example =
    find-iff-matches runtime texts one filed "r" "a" "x" true (row "r" (str "x")) (str "x")
      equal_iff texts-apart one-IsListed refl refl refl refl refl refl

abbrev tags : Value
tags = arr (cons (str "x") nil)

abbrev tagged : Collection
tagged = put "r" (row "r" tags) []

tagged-IsListed : IsListed texts by_a tagged (("", str "r" ∷ []) ∷ [])
unfolding put get rebuild add_documents add_document entry_key resolve_values property split_path
tagged-IsListed = rebuild-IsListed texts by_a tagged (refl, tt) (one-IsKeyed tags) refl

unlike : ◌≢◌ {A = String} "" "x"
unlike h = let no : false ≡ true = (eq_iff "" "x").1 h in cc

find-misses_example :
    (matches runtime (row "r" tags) (obj (field "a" (str "x") end)) ≡ ok true)
    × (has_id (str "r") (find texts (str "x" ∷ []) (("", str "r" ∷ []) ∷ [])) ≡ false)
unfolding IsListed entry_key resolve_values split_path get put is_operator items_list equal
find-misses_example =
    find-misses runtime texts tagged (("", str "r" ∷ []) ∷ []) "r" "a" "x" true (row "r" tags)
      (cons (str "x") nil) tagged-IsListed refl refl refl refl refl unlike

-- Two records with the same value are put, and the second is refused.
abbrev put_both : GuardedWork
put_both = puts "t" (row "r" (str "x")) λ _.
    puts "t" (row "s" (str "x"))
      λ done. elim done [ err e ↦ returns (str "refused") | ok _ ↦ returns (str "done") ]

abbrev defined : String → List Definition
defined name = by_a ∷ []

put_both_runs :
    run_work (guard texts defined (λ v. "") [] put_both) [] ≡ (ok (str "refused"), ("t", one) ∷ [])
unfolding run_work guard all_in validate_collection_name valid_collection_name truthy property
    collection_of get touch put put_in validate_record validate_id valid_id store strict_equal
    resolve_values split_path
put_both_runs = refl

IsUnique-empty : (d : Definition) → IsUnique texts d []
unfolding IsUnique get
IsUnique-empty d key i j first second = cc

empty-IsSound : IsSound texts defined []
unfolding collection_of get
empty-IsSound = record {
  keyed = λ name. IsKeyed-empty;
  unique = λ name d among is_unique. IsUnique-empty d;
}

guard-IsSound_example :
    IsSound texts defined (run_work (guard texts defined (λ v. "") [] put_both) []).1
guard-IsSound_example = guard-IsSound texts defined (λ v. "") put_both [] empty-IsSound
