-- ===== src/Database/Replication/Duplicates.antt =====
-- A foreign change is applied once (src/index.js: applyReplicationChange, appendChange).
use text.Mathlib.TextPositions.{eq_refl}
use syncio.Base.{
  ℕ, ◌-◌, ◌≤◌, ◌<◌, ◌≡◌, refl, ap, ◌∙◌, String, Bool, true, inl, inr, some, List, [], ◌∷◌, ◌++◌,
  Result, ok, arith, length, length-append, drop, drop-append,
}
use syncio.Base.Maps.{get}
use syncio.Json.{Value}
use syncio.Change.{Change, Event}
use syncio.Wal.{Payload}
use syncio.Database.State.{State, Database}
use syncio.Database.Events.{Env, append_change, make_event}
use syncio.Database.History.{
  IsOrdered, IsOrdered-collections, last_sequence, last_sequence-append, keep_last,
}
use syncio.Database.Appended.{next, made, next_lem, next-IsOrdered}
use syncio.Database.Commit.{Io, commit_events}
use syncio.Database.Collection.{Write, perform, report}
use syncio.Database.Kept.{perform-done, kept_by}
use syncio.Database.Replication.Decided.{
  IsDecided, decide_replication-duplicate, decide_replication-eq-ok,
}
use syncio.Database.Replication.{
  Outcome, duplicate, is_applied, change_id_of, received_change, decide_replication,
  apply_replication_change,
}

-- The last event of a history is kept by a retention of at least one.
keep_last-append_one :
    (retention : ℕ) (es : List Event) (e : Event)
    → 1 ≤ retention
    → (kept : List Event) × (keep_last retention (es ++ e ∷ []) ≡ kept ++ e ∷ [])
keep_last-append_one retention es e some_kept =
    let n : ℕ = length (es ++ e ∷ []) - retention in
    let le : n ≤ length es = omega (arith, length-append {0} es (e ∷ [])) in
    (drop n es, drop-append n es (e ∷ []) le)

is_applied-found :
    (id : String) (s : State) (n : ℕ) → get id s.applied ≡ some n → 0 < n → is_applied id s ≡ true
unfolding is_applied
is_applied-found id s n found pos = rw (found, is_applied) (ground arith)

-- The identity of an appended change counts as applied.
next-is_applied :
    (retention : ℕ) (env : Env) (preserve : Bool) (s : State) (c : Change)
    → IsOrdered s
    → 1 ≤ retention
    → is_applied (made retention env preserve s c).change_id (next retention env preserve s c)
      ≡ true
next-is_applied retention env preserve s c inv some_kept =
    let e : Event = made retention env preserve s c in
    let one = next_lem retention env preserve s c in
    let (kept, tail) = keep_last-append_one retention s.changes e some_kept in
    let found : get e.change_id (next retention env preserve s c).applied ≡ some e.sequence =
      (next-IsOrdered retention env preserve s c inv).applied e.change_id
      ∙ ap (last_sequence e.change_id) (one.changes ∙ tail)
      ∙ last_sequence-append e.change_id kept e
      ∙ rw (eq_refl e.change_id) in
    is_applied-found e.change_id (next retention env preserve s c) e.sequence found
      (omega (arith, one.numbered))

module _ (resolver : Value → Value → Result Value) (legacy : Change → String) where
  -- A decided change leaves a draft in which its identity counts as applied.
  decided-is_applied :
      (retention : ℕ) (env : Env) (c : Change) (s : State) (w : Write Outcome)
      → IsOrdered s
      → 1 ≤ retention
      → IsDecided resolver legacy retention env c s w
      → is_applied (change_id_of resolver legacy c) w.draft ≡ true
  unfolding append_change make_event
  decided-is_applied retention env c s w inv some_kept (inl (seen, dup)) = rw dup seen
  decided-is_applied retention env c s w inv some_kept (inr (cs, found, new)) = rw new (
      next-is_applied retention env true (record s { collections = cs })
        (received_change resolver legacy env c) (IsOrdered-collections cs s inv) some_kept)

  kept_by-decided :
      (digest : Payload → String) (io : Io) (retention : ℕ) (env : Env) (c : Change) (db : Database)
      (w : Write Outcome)
      → IsDecided resolver legacy retention env c db.state w
      → kept_by digest io w db ≡ w.draft
  kept_by-decided digest io retention env c db w (inl (seen, dup)) = rw dup
  kept_by-decided digest io retention env c db w (inr (cs, found, new)) = rw new

  perform-duplicate :
      (digest : Payload → String) (io : Io) (db : Database)
      → perform digest io (ok (record { draft = db.state; events = []; result = duplicate })) db
        ≡ (ok duplicate, db)
  unfolding perform report commit_events
  perform-duplicate digest io db = refl

  -- Behind a successful applyReplicationChange in an ordered database that retains at least one change,
  -- applying the same change again, at any time and whatever the files do, reports a duplicate and
  -- changes nothing.
  pub apply_replication_change-twice :
      (digest : Payload → String) (io io' : Io) (env env' : Env) (c : Change) (db : Database)
      (o : Outcome)
      → IsOrdered db.state
      → 1 ≤ db.change_retention
      → (apply_replication_change resolver legacy digest io env c db).0 ≡ ok o
      → apply_replication_change resolver legacy digest io' env' c
          (apply_replication_change resolver legacy digest io env c db).1
        ≡ (ok duplicate, (apply_replication_change resolver legacy digest io env c db).1)
  unfolding apply_replication_change
  apply_replication_change-twice digest io io' env env' c db o inv some_kept h =
      let first = decide_replication resolver legacy db.change_retention env c db.state in
      let db' : Database = (perform digest io first db).1 in
      let (w, decided, _, state) = perform-done digest io first db o h in
      let (named, split) =
        decide_replication-eq-ok resolver legacy db.change_retention env c db.state w decided in
      let draft : db'.state ≡ w.draft =
        state ∙ kept_by-decided digest io db.change_retention env c db w split in
      let seen : is_applied (change_id_of resolver legacy c) db'.state ≡ true =
        ap (is_applied (change_id_of resolver legacy c)) draft
        ∙ decided-is_applied db.change_retention env c db.state w inv some_kept split in
      ap (λ r. perform digest io' r db')
        (decide_replication-duplicate resolver legacy db'.change_retention env' c db'.state named
          seen)
      ∙ perform-duplicate digest io' db'
