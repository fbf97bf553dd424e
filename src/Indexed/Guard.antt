-- ===== src/Indexed/Guard.antt =====
-- src/indexed.js: what a unique index refuses (#assertUniqueCandidateAgainstRecords) and the
-- transactions that ask for it (#transactionProxy). The work of a transaction is a tree, as in
-- `Database.Transaction`, and the proxy makes of it the work that runs in the transaction of the
-- base.
pub mod Distinct
pub mod Sound
pub mod Runs
use syncio.Base.{
  String, Bool, true, false, not, ◌&&◌, Option, none, some, List, [], ◌∷◌, Error, Result, ok, err,
  type_error, unique_index_violation, ◌>>=◌, ◌>>◌, require, any, if◌then◌else◌,
}
use syncio.Base.Maps.{Map, get, values}
use syncio.Json.{Value, null, str, obj, exotic, truthy, property}
use syncio.Document.Runtime.{strict_equal}
use syncio.Database.State.{Collection, collection_of}
use syncio.Database.Replay.{store, erase}
use syncio.Database.Collection.{read}
use syncio.Database.Transaction.{Work, finish, throw, tx_put, tx_remove, tx_all, touch}
use syncio.Indexed.{Definition, field_values, is_missing}
use syncio.Indexed.Catalog.{same_values}

-- The work of a transaction through the proxy, whose `remove` tells whether there was a record.
pub data GuardedWork : Type 0 where
  returns : Value → GuardedWork
  throws : Error → GuardedWork
  gets : String → Value → (Result Value → GuardedWork) → GuardedWork
  puts : String → Value → (Result (Unit {0}) → GuardedWork) → GuardedWork
  removes : String → Value → (Result Bool → GuardedWork) → GuardedWork
  takes_all : String → (Result (List Value) → GuardedWork) → GuardedWork

abbrev pub is_candidate : Value → Bool
is_candidate (obj fs) = true
is_candidate (exotic is_object) = is_object
is_candidate _ = false

-- `delegate.remove(id)` and `put` have checked the identity, so it is a text.
abbrev pub put_working : String → Value → Value → Map Collection → Map Collection
put_working name (str id) document working = store name id document working
put_working name _ document working = working

abbrev pub remove_working : String → Value → Map Collection → Map Collection
remove_working name (str id) working = erase name id working
remove_working name _ working = working

abbrev is_some : Option Value → Bool
is_some none = false
is_some (some v) = true

abbrev pub has_working : String → Value → Map Collection → Bool
has_working name (str id) working = is_some (get id (collection_of name working))
has_working name _ working = false

-- `delegate.put`, if the checks have passed.
unfoldable pub put_checked : Result (Unit {0}) → String → Value → (Result (Unit {0}) → Work) → Work
put_checked (err e) name document next = next (err e)
put_checked (ok _) name document next = tx_put name document next

module _ (stringify : List Value → String) where
  -- Whether a record that is not the excluded one has the values of the candidate.
  unfoldable pub is_clash : Definition → Value → Value → Value → Bool
  unfolding field_values same_values
  is_clash d candidate exclude document =
      not (truthy exclude && strict_equal (property "id" document) exclude)
      && same_values stringify (field_values d.fields candidate) (field_values d.fields document)

  unfoldable pub violates : Value → Value → List Value → Definition → Bool
  unfolding is_clash
  violates candidate exclude documents d =
      d.unique
      && not (d.sparse && any is_missing (field_values d.fields candidate))
      && any (is_clash d candidate exclude) documents

  unfoldable pub assert_unique : List Definition → Value → Value → List Value → Result (Unit {0})
  unfolding violates
  assert_unique definitions candidate exclude documents =
      require
        (not (is_candidate candidate && any (violates candidate exclude documents) definitions))
        unique_index_violation

  -- `definitions` gives those of a collection, and `property_name` the name under which a value
  -- that is no text is looked up.
  module _ (definitions : String → List Definition) (property_name : Value → String) where
    abbrev pub name_of_property : Value → String
    name_of_property (str id) = id
    name_of_property v = property_name v

    unfoldable pub get_working : String → Value → Map Collection → Value
    get_working name id working =
        let found = read name (name_of_property id) working in if truthy found then found else null

    unfoldable pub check_put : String → Value → Map Collection → Result (Unit {0})
    unfolding assert_unique
    check_put name document working = do
      require (truthy (property "id" document)) type_error
      assert_unique (definitions name) document (property "id" document)
          (values (collection_of name working))

    unfoldable pub guard : Map Collection → GuardedWork → Work
    unfolding check_put put_checked get_working
    guard working (returns v) = finish v
    guard working (throws e) = throw e
    guard working (gets name id k) = tx_all name (λ named. elim named [
      | err e ↦ guard working (k (err e))
      | ok _ ↦ guard (touch name working) (k (ok (get_working name id (touch name working))))
    ])
    guard working (puts name document k) = tx_all name (λ named. elim named [
      | err e ↦ guard working (k (err e))
      | ok _ ↦ put_checked (check_put name document (touch name working)) name document (λ done.
          elim done [
            | err e ↦ guard (touch name working) (k (err e))
            | ok _ ↦
                guard (put_working name (property "id" document) document (touch name working))
                  (k (ok tt))
          ])
    ])
    guard working (removes name id k) = tx_all name (λ named. elim named [
      | err e ↦ guard working (k (err e))
      | ok _ ↦ tx_remove name id (λ done. elim done [
        | err e ↦ guard (touch name working) (k (err e))
        | ok _ ↦
            guard (remove_working name id (touch name working))
              (k (ok (has_working name id (touch name working))))
      ])
    ])
    guard working (takes_all name k) = tx_all name (λ named. elim named [
      | err e ↦ guard working (k (err e))
      | ok _ ↦
          guard (touch name working) (k (ok (values (collection_of name (touch name working)))))
    ])
