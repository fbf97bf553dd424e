-- ===== src/Database/Events.antt =====
-- src/index.js: appendChange and pruneChangeMetadata, the ordered history of changes.
use syncio.Base.{
  Option, ℕ, ◌-◌, ◌+◌, String, Bool, false, none, some, List, [], ◌∷◌, ◌++◌, leb, eqb, length, take,
  drop, if◌then◌else◌,
}
use syncio.Base.Maps.{Map, get, put, delete}
use syncio.Change.{Change, Event}
use syncio.Database.State.{State, or_else}

-- crypto.randomUUID and the clock: `fresh n` is the identity drawn for the event with sequence `n`,
-- `record_id` the one drawn for a record without an id, `now` the time.
pub record Env : Type 0 where
  pub fresh : ℕ → String
  pub record_id : String
  pub now : String

-- `appliedChangeIds[id] === sequence`
unfoldable pub is_applied_as : Map ℕ → String → ℕ → Bool
is_applied_as applied id sequence = elim (get id applied) [ none ↦ false | some n ↦ eqb n sequence ]

-- The loop of pruneChangeMetadata over the changes that it removed.
unfoldable pub forget : Map ℕ → List Event → Map ℕ
forget applied [] = applied
forget applied (e ∷ es) =
    forget
      (if is_applied_as applied e.change_id e.sequence then delete e.change_id applied else applied)
      es

unfoldable pub prune : ℕ → State → State
prune retention s =
    let n = length s.changes in
    if leb n retention then s else record s {
      changes = drop (n - retention) s.changes;
      applied = forget s.applied (take (n - retention) s.changes);
    }

-- The safe sequence of a change, if it has one; otherwise what the copy of the change has.
abbrev first_of : Option ℕ → Option ℕ → Option ℕ
first_of none other = other
first_of (some n) other = some n

-- The event that appendChange makes of a change; a change of another database keeps its identity.
unfoldable pub make_event : Env → Bool → State → Change → Event
make_event env preserve s c =
    let sequence = s.sequence + 1 in
    record {
      collection = c.collection;
      type = c.type;
      id = c.id;
      body = c.body;
      change_id = if preserve then or_else c.change_id "" else env.fresh sequence;
      origin = or_else c.origin s.database_id;
      source_sequence =
          if preserve then first_of c.sequence c.source_sequence else c.source_sequence;
      sequence = sequence;
      at = or_else c.at env.now;
      source = c.source;
      received_at = c.received_at;
    }

-- A change goes to the end of the history, and its identity is recorded.
unfoldable pub record_event : Event → State → State
record_event e s = record s {
  changes = s.changes ++ e ∷ [];
  applied = put e.change_id e.sequence s.applied;
}

unfoldable pub append_change : ℕ → Env → Bool → State → Change → Event × State
append_change retention env preserve s c =
    let e = make_event env preserve s c in
    (e, prune retention (record_event e (record s { sequence = e.sequence })))

-- `changes.map((change) => this.#appendChange(draft, change))`
unfoldable pub append_changes : ℕ → Env → State → List Change → List Event × State
append_changes retention env s [] = ([], s)
append_changes retention env s (c ∷ cs) =
    let (e, s') = append_change retention env false s c in
    let (es, s'') = append_changes retention env s' cs in (e ∷ es, s'')
