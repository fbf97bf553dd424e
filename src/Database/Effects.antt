-- ===== src/Database/Effects.antt =====
-- Replaying the events of a commit gives the state that the commit made
-- (src/index.js: replayWal, applyEventToState against appendChange).
use syncio.Base.{
  ℕ, suc, ◌+◌, ◌<◌, ◌≡◌, refl, sym, ap, ◌∙◌, subst, String, Bool, true, false, none, some, List, [],
  ◌∷◌, ◌++◌, Result, ok, ◌>>=◌, >>=-eq-ok, ok-injective, arith, leb, gt→leb, eqb, eqb_iff, eq_iff,
  ◌==◌, length, if◌then◌else◌, append_cons_assoc,
}
use mathlib.Core.List.{append-nil}
use native.Mathlib.Nat.{add-zero}
use native.Mathlib.Numerals.{add-one}
use syncio.Base.Maps.{Map, get, put}
use syncio.Change.{Event}
use syncio.Wal.{Entry}
use syncio.Database.State.{Collection, State, collection_of}
use syncio.Database.Events.{record_event, prune}
use syncio.Database.History.{
  Numbered, IsOrdered, record_event-IsOrdered, prune-IsOrdered, changes-prune, prune-fields,
  keep_last, IsOrdered-collections,
}
use syncio.Database.Replay.{
  Effect, erasing, storing, run_effect, event_effect, apply_event, replay_events, replay_entry,
}
use syncio.Database.Same.{
  Equality, Alike, Alike-sym, Alike-trans, AlikeMaps, at, Same, get-store, get-erase,
}

-- What the events of a commit do to the collections, in their order.
unfoldable pub effects : List Event → Map Collection → Result (Map Collection)
effects [] cs = ok cs
effects (e ∷ es) cs = do effect ← event_effect e; effects es (run_effect e.collection effect cs)

module _ (q : Equality) where
  run_effect-alike :
      (name : String) (effect : Effect) (cs ds : Map Collection)
      → AlikeMaps q cs ds
      → AlikeMaps q (run_effect name effect cs) (run_effect name effect ds)
  run_effect-alike name (erasing id) cs ds h n k =
      rw (get-erase name id cs n k, get-erase name id ds n k) (choose (name == n) (id == k))
    where
      choose :
          (a b : Bool)
          → Alike q
              (if a
                then (if b then none else get k (collection_of name cs))
                else get k (collection_of n cs))
              (if a
                then (if b then none else get k (collection_of name ds))
                else get k (collection_of n ds))
      choose true true = tt
      choose true false = h name k
      choose false b = h n k
  run_effect-alike name (storing id body) cs ds h n k =
      rw (get-store name id body cs n k, get-store name id body ds n k)
        (choose (name == n) (id == k))
    where
      choose :
          (a b : Bool)
          → Alike q
              (if a
                then (if b then some body else get k (collection_of name cs))
                else get k (collection_of n cs))
              (if a
                then (if b then some body else get k (collection_of name ds))
                else get k (collection_of n ds))
      choose true true = q.reflexive body
      choose true false = h name k
      choose false b = h n k

  -- Events do the same to collections that hold the same.
  pub effects-alike :
      (es : List Event) (cs ds cs' : Map Collection)
      → AlikeMaps q cs ds
      → effects es cs ≡ ok cs'
      → (ds' : Map Collection) × (effects es ds ≡ ok ds') × AlikeMaps q cs' ds'
  unfolding effects
  effects-alike [] cs ds cs' h e = (ds, refl, subst (λ m. AlikeMaps q m ds) (ok-injective e) h)
  effects-alike (e ∷ es) cs ds cs' h eq =
      let (effect, found, rest) = >>=-eq-ok (event_effect e) _ eq in
      let (ds', run, alike) =
        effects-alike es (run_effect e.collection effect cs) (run_effect e.collection effect ds) cs'
          (run_effect-alike e.collection effect cs ds h) rest in
      (ds', rw found run, alike)

abbrev applied_all : Map ℕ → List Event → Map ℕ
applied_all applied [] = applied
applied_all applied (e ∷ es) = applied_all (put e.change_id e.sequence applied) es

-- The state with the events of a commit recorded, and nothing else.
abbrev pub recorded : List Event → State → State
recorded es s = record s { changes = s.changes ++ es; applied = applied_all s.applied es }

pub recorded-IsOrdered :
    (es : List Event) (s : State)
    → IsOrdered s
    → Numbered s.sequence es
    → IsOrdered (record (recorded es s) { sequence = s.sequence + length es })
unfolding record_event
recorded-IsOrdered [] s inv h = rw append-nil (rw add-zero inv)
recorded-IsOrdered (e ∷ es) s inv h =
    let s' : State = record_event e (record s { sequence = e.sequence }) in
    let inv' : IsOrdered s' = record_event-IsOrdered e s inv h.0 in
    let all = recorded-IsOrdered es s' inv' (rw (h.0) (h.1)) in
    let at : e.sequence + length es ≡ s.sequence + suc (length es) = omega (arith, h.0) in
    rw (← at) (rw (← append_cons_assoc s.changes e es) all)

replay_events-effects :
    (n : ℕ) (s : State) (es : List Event) (cs : Map Collection)
    → Numbered n es
    → effects es s.collections ≡ ok cs
    → replay_events n s es ≡ ok (n + length es, record (recorded es s) { collections = cs })
unfolding replay_events effects record_event apply_event
replay_events-effects n s [] cs h eq = rw (append-nil, add-zero, ← ok-injective eq)
replay_events-effects n s (e ∷ es) cs h eq =
    let (effect, found, rest) = >>=-eq-ok (event_effect e) _ eq in
    let s' : State = record s { collections = run_effect e.collection effect s.collections } in
    let ih = replay_events-effects (n + 1) (record_event e s') es cs (rw add-one (h.1)) rest in
    let numbered : eqb e.sequence (n + 1) ≡ true = ground (arith, h.0) in
    let at : n + 1 + length es ≡ n + suc (length es) = omega arith in
    rw (numbered, found, ← at, ← append_cons_assoc s.changes e es) ih

-- What a commit adds to a state: events numbered from its sequence on, the state's history with them
-- at its end, cut to the retention, and collections that hold what the events' effects leave.
pub record Extends (q : Equality) (retention : ℕ) (s : State) (es : List Event) (draft : State)
    : Type 0 where
  pub version : s.version ≡ draft.version
  pub database_id : s.database_id ≡ draft.database_id
  pub numbered : Numbered s.sequence es
  pub sequence : draft.sequence ≡ s.sequence + length es
  pub changes : draft.changes ≡ keep_last retention (s.changes ++ es)
  pub after : Map Collection
  pub effect : effects es s.collections ≡ ok after
  pub records : AlikeMaps q after draft.collections

-- The log entry of a commit.
pub record IsEntryOf (s : State) (es : List Event) (draft : State) (entry : Entry) : Type 0 where
  pub database_id : entry.database_id ≡ s.database_id
  pub base : entry.base_sequence ≡ s.sequence
  pub result : entry.result_sequence ≡ draft.sequence
  pub events : entry.events ≡ es

module _ (q : Equality) (retention : ℕ) (s draft t : State) (es : List Event) (entry : Entry)
    (commit : Extends q retention s es draft) (logged : IsEntryOf s es draft entry)
    (grows : s.sequence < draft.sequence) (same : Same q t s) (ordered : IsOrdered t) where
  -- Replaying the entry of a commit in a state that holds the same as the state before it gives a
  -- state that holds the same as the state behind it.
  pub replay_entry-Same :
      (t' : State) × (replay_entry retention t entry ≡ ok t') × Same q t' draft × IsOrdered t'
  unfolding replay_entry
  replay_entry-Same =
      let (cs, run, alike) =
        effects-alike q es s.collections t.collections commit.after
          (λ name id.
            Alike-sym q (at q name id t.collections) (at q name id s.collections)
              (same.records name id))
          commit.effect in
      let numbered : Numbered t.sequence es = rw (same.sequence) (commit.numbered) in
      let all : State = record (recorded es t) { collections = cs; sequence = draft.sequence } in
      let ends : t.sequence + length es ≡ draft.sequence =
        rw (same.sequence) (sym commit.sequence) in
      let named : (entry.database_id == t.database_id) ≡ true =
        (eq_iff entry.database_id t.database_id).1 (logged.database_id ∙ sym same.database_id) in
      let later : leb entry.result_sequence t.sequence ≡ false =
        gt→leb entry.result_sequence t.sequence (omega (arith, logged.result, same.sequence)) in
      let at_base : eqb entry.base_sequence t.sequence ≡ true =
        (eqb_iff entry.base_sequence t.sequence).1 (logged.base ∙ sym same.sequence) in
      let replayed : replay_events entry.base_sequence t entry.events
          ≡ ok (draft.sequence, record (recorded es t) { collections = cs }) =
        rw (logged.events, logged.base, ← same.sequence, ← ends)
          (replay_events-effects t.sequence t es cs numbered run) in
      let at_end : eqb draft.sequence entry.result_sequence ≡ true =
        (eqb_iff draft.sequence entry.result_sequence).1 (sym logged.result) in
      let fields = prune-fields retention all in
      (
        prune retention all,
        rw (named, later, at_base, replayed, at_end, logged.result),
        record {
          version = fields.0 ∙ same.version ∙ commit.version;
          database_id = fields.1 ∙ same.database_id ∙ commit.database_id;
          sequence = fields.2;
          changes =
              changes-prune retention all
              ∙ ap (λ (h : List Event). keep_last retention (h ++ es)) same.changes
              ∙ sym commit.changes;
          records = λ name id. rw (fields.3) (
              Alike-trans q (at q name id cs) (at q name id commit.after)
                (at q name id draft.collections)
                (Alike-sym q (at q name id commit.after) (at q name id cs) (alike name id))
                (commit.records name id));
        },
        prune-IsOrdered retention all (
            IsOrdered-collections cs (record (recorded es t) { sequence = draft.sequence })
              (rw (← ends) (recorded-IsOrdered es t ordered numbered))),
      )
