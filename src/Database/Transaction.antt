-- ===== src/Database/Transaction.antt =====
-- src/index.js: transaction, createTransactionApi and diffCollections.
-- The callback is a tree: it makes one call of the transaction's API after another, each chosen by the
-- results so far, an error that a call threw included, and ends with a result or by throwing.
pub mod Tracks
pub mod Keys
pub mod Atomic
pub mod Steps
pub mod Diff
use Prim.Native.Nat.{Ordering}
use Prim.Native.String.{compare}
use syncio.Base.{
  ℕ, String, Bool, true, false, not, Option, none, some, List, [], ◌∷◌, ◌++◌, Error, Result, ok,
  err, type_error, ◌>>=◌, ◌>>◌, require, ◌==◌, if◌then◌else◌,
}
use syncio.Base.Maps.{Map, get, put, keys, values}
use syncio.Json.{
  Value, undefined, null, Fields, truthy, get_field, validate_record, validate_collection_name,
  validate_id,
}
use syncio.Change.{Change}
use syncio.Wal.{Payload}
use syncio.Database.State.{Collection, State, Database, collection_of}
use syncio.Database.Events.{Env, append_changes}
use syncio.Database.Replay.{store, erase}
use syncio.Database.Same.{Equality}
use syncio.Database.Commit.{Io}
use syncio.Database.Collection.{Write, read, local_change, perform}

pub data Work : Type 0 where
  finish : Value → Work
  throw : Error → Work
  tx_get : String → Value → (Result Value → Work) → Work
  tx_put : String → Value → (Result (Unit {0}) → Work) → Work
  tx_remove : String → Value → (Result (Unit {0}) → Work) → Work
  tx_all : String → (Result (List Value) → Work) → Work

-- `collections[name] ??= {}`
unfoldable pub touch : String → Map Collection → Map Collection
touch name cs = put name (collection_of name cs) cs

-- `collection[id] ? structuredClone(collection[id]) : null`
unfoldable pub get_in : String → Value → Map Collection → Result Value
get_in name id_value cs = do
  validate_collection_name name
  id ← validate_id id_value
  let v = read name id cs
  ok (if truthy v then v else null)

unfoldable pub put_in : String → Value → Map Collection → Result (Map Collection)
put_in name value cs = do
  validate_collection_name name
  fields ← validate_record value
  require (truthy (get_field "id" fields)) type_error
  id ← validate_id (get_field "id" fields)
  ok (store name id value cs)

unfoldable pub remove_in : String → Value → Map Collection → Result (Map Collection)
remove_in name id_value cs = do
  validate_collection_name name
  id ← validate_id id_value
  ok (erase name id cs)

unfoldable pub all_in : String → Map Collection → Result (List Value)
all_in name cs = do validate_collection_name name; ok (values (collection_of name cs))

-- The draft behind a call that may have thrown.
abbrev pub draft_or : Map Collection → Result (Map Collection) → Map Collection
draft_or cs (ok ds) = ds
draft_or cs (err e) = cs

abbrev pub done : Result (Map Collection) → Result (Unit {0})
done (ok ds) = ok tt
done (err e) = err e

-- `collection(name)` comes first in each call: with a good name it makes the collection.
abbrev pub opened : String → Map Collection → Map Collection
opened name cs = elim (validate_collection_name name) [ ok _ ↦ touch name cs | err e ↦ cs ]

unfoldable pub run_work : Work → Map Collection → Result Value × Map Collection
run_work (finish v) cs = (ok v, cs)
run_work (throw e) cs = (err e, cs)
run_work (tx_get name id k) cs = run_work (k (get_in name id (opened name cs))) (opened name cs)
run_work (tx_put name value k) cs =
    run_work (k (done (put_in name value (opened name cs))))
      (draft_or (opened name cs) (put_in name value (opened name cs)))
run_work (tx_remove name id k) cs =
    run_work (k (done (remove_in name id (opened name cs))))
      (draft_or (opened name cs) (remove_in name id (opened name cs)))
run_work (tx_all name k) cs = run_work (k (all_in name (opened name cs))) (opened name cs)

-- `[...new Set(xs)]`
unfoldable pub without : String → List String → List String
without x [] = []
without x (y ∷ ys) = let rest = without x ys in if x == y then rest else y ∷ rest

unfoldable pub unique : List String → List String
unfolding without
unique [] = []
unique (x ∷ xs) = x ∷ without x (unique xs)

-- The default order of `sort` on texts. It compares UTF-16 units and this compares code points, which
-- differ where one text has a character beyond U+FFFF; nothing that is proved depends on the order.
abbrev pub text_before : String → String → Bool
text_before s t = elim (compare s t) [ Ordering.lt ↦ true | _ ↦ false ]

unfoldable pub place : String → List String → List String
place x [] = x ∷ []
place x (y ∷ ys) = let rest = place x ys in if text_before y x then y ∷ rest else x ∷ y ∷ ys

unfoldable pub sort : List String → List String
unfolding place
sort [] = []
sort (x ∷ xs) = place x (sort xs)

-- `[...new Set([...Object.keys(a), ...Object.keys(b)])].sort()`
unfoldable pub all_keys {ℓ} : {V : Type ℓ} → Map V → Map V → List String
all_keys a b = sort (unique (keys a ++ keys b))

-- What a transaction decides: the draft that its work leaves, with the events of its difference.
unfoldable pub write_of : ℕ → Env → Value → State → List Change → Write Value
write_of retention env result draft changes =
    let (events, draft') = append_changes retention env draft changes in
    record { draft = draft'; events = events; result = result }

module _ (q : Equality) where
  -- The change of one record, by whether it is there before and behind.
  unfoldable pub diff_record : String → String → Option Value → Option Value → List Change
  diff_record name id previous none = local_change name "remove" id undefined ∷ []
  diff_record name id none (some r) = local_change name "insert" id r ∷ []
  diff_record name id (some p) (some r) =
      if q.deep_equal p r then [] else local_change name "upsert" id r ∷ []

  unfoldable pub diff_ids : String → Collection → Collection → List String → List Change
  unfolding diff_record
  diff_ids name previous next [] = []
  diff_ids name previous next (id ∷ ids) =
      diff_record name id (get id previous) (get id next) ++ diff_ids name previous next ids

  unfoldable pub diff_names : Map Collection → Map Collection → List String → Result (List Change)
  diff_names before after [] = ok []
  diff_names before after (name ∷ names) = do
    validate_collection_name name
    rest ← diff_names before after names
    let previous = collection_of name before
    let next = collection_of name after
    ok (diff_ids name previous next (all_keys previous next) ++ rest)

  unfoldable pub diff_collections : Map Collection → Map Collection → Result (List Change)
  unfolding diff_names
  diff_collections before after = diff_names before after (all_keys before after)

  unfoldable pub decide_transaction : ℕ → Env → Work → State → Result (Write Value)
  decide_transaction retention env work s = do
    result ← (run_work work s.collections).0
    let after = (run_work work s.collections).1
    changes ← diff_collections s.collections after
    ok (write_of retention env result (record s { collections = after }) changes)

  unfoldable pub transaction :
      (Payload → String) → Io → Env → Work → Database → Result Value × Database
  transaction digest io env work db =
      perform digest io (decide_transaction db.change_retention env work db.state) db
