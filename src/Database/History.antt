-- ===== src/Database/History.antt =====
-- The invariant of the change history (src/index.js: appendChange, pruneChangeMetadata).
use syncio.Base.{
  ℕ, zero, suc, ◌+◌, ◌-◌, ◌≤◌, ◌<◌, ◌≡◌, sym, ap, ◌∙◌, subst, String, inl, inr, Bool-cases, Option,
  none, some, List, [], ◌∷◌, ◌++◌, arith, leb, leb→le, ◌==◌, eq_iff, length, take, drop,
  length-append, length-drop, drop-append, drop-drop, if◌then◌else◌,
}
use syncio.Base.Maps.{Map, get, delete, get-put, get-delete}
use syncio.Change.{Event}
use syncio.Database.State.{Collection, State}
use syncio.Database.Events.{forget, prune, record_event, is_applied_as}

-- The sequences of the events are the numbers behind `from`, in order and without a gap.
abbrev pub Numbered : ℕ → List Event → Type 0
Numbered from [] = Unit
Numbered from (e ∷ es) = (e.sequence ≡ suc from) × Numbered (suc from) es

-- The sequence of the last event with an identity.
abbrev pub later {ℓ} : {A : Type ℓ} → Option A → Option A → Option A
later (some n) o = some n
later none o = o

abbrev pub last_sequence : String → List Event → Option ℕ
last_sequence id [] = none
last_sequence id (e ∷ es) =
    later (last_sequence id es) (if e.change_id == id then some e.sequence else none)

-- The history ends at the state's sequence, and the identities that count as applied are those of
-- the retained events, each with the sequence of the last event that has it.
pub record IsOrdered (s : State) : Type 0 where
  pub base : ℕ
  pub numbered : Numbered base s.changes
  pub ends : base + length s.changes ≡ s.sequence
  pub applied : (id : String) → get id s.applied ≡ last_sequence id s.changes

pub Numbered-append :
    (from : ℕ) (es : List Event) (e : Event)
    → Numbered from es
    → e.sequence ≡ suc (from + length es)
    → Numbered from (es ++ e ∷ [])
Numbered-append from [] e h at = (omega arith, tt)
Numbered-append from (d ∷ es) e h at = (h.0, Numbered-append (suc from) es e h.1 (omega arith))

pub Numbered-drop :
    (n from : ℕ) (es : List Event)
    → n ≤ length es
    → Numbered from es
    → Numbered (from + n) (drop n es)
Numbered-drop zero from es le h = subst (λ k. Numbered k es) (omega arith) h
Numbered-drop (suc n) from [] le h = absurd (omega arith)
Numbered-drop (suc n) from (e ∷ es) le h =
    subst (λ k. Numbered k (drop n es)) (omega arith)
      (Numbered-drop n (suc from) es (omega arith) h.1)

pub last_sequence-append :
    (id : String) (es : List Event) (e : Event)
    → last_sequence id (es ++ e ∷ [])
      ≡ (if e.change_id == id then some e.sequence else last_sequence id es)
last_sequence-append id [] e = ground arith
last_sequence-append id (d ∷ es) e = ground (arith, last_sequence-append id es e)

-- What is found behind `from` has a larger sequence.
last_sequence-gt :
    (id : String) (from : ℕ) (es : List Event) (n : ℕ)
    → Numbered from es
    → last_sequence id es ≡ some n
    → from < n
last_sequence-gt id from [] n h e = cc
last_sequence-gt id from (d ∷ es) n h e =
    ground (arith, h.0, last_sequence-gt id (suc from) es n h.1)

abbrev forget_step : Map ℕ → Event → Map ℕ
forget_step applied e =
    if is_applied_as applied e.change_id e.sequence then delete e.change_id applied else applied

-- Forgetting the first event leaves the identities of those behind it.
forget_step-applied :
    (from : ℕ) (e : Event) (es : List Event) (applied : Map ℕ)
    → Numbered from (e ∷ es)
    → ((id : String) → get id applied ≡ last_sequence id (e ∷ es))
    → (id : String) → get id (forget_step applied e) ≡ last_sequence id es
unfolding is_applied_as
forget_step-applied from e es applied h same id = ground (
  arith,
  same id,
  same e.change_id,
  eq_iff e.change_id id,
  eq_iff e.change_id e.change_id,
  get-delete e.change_id id applied,
  last_sequence-gt e.change_id (suc from) es e.sequence h.1,
  h.0,
)

pub forget-applied :
    (n from : ℕ) (es : List Event) (applied : Map ℕ)
    → n ≤ length es
    → Numbered from es
    → ((id : String) → get id applied ≡ last_sequence id es)
    → (id : String) → get id (forget applied (take n es)) ≡ last_sequence id (drop n es)
unfolding forget
forget-applied zero from es applied le h same id = same id
forget-applied (suc n) from [] applied le h same id = absurd (omega arith)
forget-applied (suc n) from (e ∷ es) applied le h same id =
    forget-applied n (suc from) es (forget_step applied e) (omega arith) h.1
      (forget_step-applied from e es applied h same) id

-- Pruning keeps the history ordered: numbered without a gap up to the sequence, with exactly the
-- identities of the retained events counting as applied.
pub prune-IsOrdered : (retention : ℕ) (s : State) → IsOrdered s → IsOrdered (prune retention s)
unfolding prune
prune-IsOrdered retention s inv = elim (Bool-cases (leb (length s.changes) retention)) [
  | inl fits ↦ rw (fits, prune) inv
  | inr over ↦
      let n = length s.changes - retention in
      let le : n ≤ length s.changes = omega arith in
      rw (over, prune)
        (record {
          base = inv.base + n;
          numbered = Numbered-drop n inv.base s.changes le inv.numbered;
          ends = omega (arith, inv.ends, length-drop {0} n s.changes);
          applied = forget-applied n inv.base s.changes s.applied le inv.numbered inv.applied;
        })
]

-- An event with the next sequence keeps the invariant.
pub record_event-IsOrdered :
    (e : Event) (s : State)
    → IsOrdered s
    → e.sequence ≡ suc s.sequence
    → IsOrdered (record_event e (record s { sequence = e.sequence }))
unfolding record_event
record_event-IsOrdered e s inv at = record {
  base = inv.base;
  numbered = Numbered-append inv.base s.changes e inv.numbered (omega (arith, inv.ends));
  ends = omega (arith, inv.ends, length-append {0} s.changes (e ∷ []));
  applied = λ id.
      get-put e.change_id id e.sequence s.applied
      ∙ ground (arith, inv.applied id, last_sequence-append id s.changes e);
}

pub length-prune : (retention : ℕ) (s : State) → length (prune retention s).changes ≤ retention
unfolding prune
length-prune retention s = ground (arith, length-drop (length s.changes - retention) s.changes)

abbrev pub keep_last : ℕ → List Event → List Event
keep_last retention es = drop (length es - retention) es

pub changes-prune :
    (retention : ℕ) (s : State) → (prune retention s).changes ≡ keep_last retention s.changes
unfolding prune
changes-prune retention s = elim (Bool-cases (leb (length s.changes) retention)) [
  | inl fits ↦
      rw (fits, prune)
        (ap (λ n. drop n s.changes) {x = 0} {y = length s.changes - retention}
          (omega (arith, leb→le (length s.changes) retention fits)))
  | inr over ↦ rw (over, prune)
]

-- Keeping the last events now and again later, or only later, is the same.
pub keep_last-append :
    (retention : ℕ) (es more : List Event)
    → keep_last retention (keep_last retention es ++ more) ≡ keep_last retention (es ++ more)
keep_last-append retention es more =
    let n : ℕ = length es - retention in
    let le : n ≤ length es = omega arith in
    let m : ℕ = length (drop n es ++ more) - retention in
    let total : n + m ≡ length (es ++ more) - retention = omega (
      arith,
      length-append {0} (drop n es) more,
      length-append {0} es more,
      length-drop {0} n es,
    ) in
    ap (drop m) (sym (drop-append n es more le))
    ∙ drop-drop m n (es ++ more)
    ∙ ap (λ k. drop k (es ++ more)) total

pub prune-fields :
    (retention : ℕ) (s : State)
    → ((prune retention s).version ≡ s.version)
      × ((prune retention s).database_id ≡ s.database_id)
      × ((prune retention s).sequence ≡ s.sequence)
      × ((prune retention s).collections ≡ s.collections)
unfolding prune
prune-fields retention s = (ground arith, ground arith, ground arith, ground arith)

pub IsOrdered-collections :
    (cs : Map Collection) (s : State) → IsOrdered s → IsOrdered (record s { collections = cs })
IsOrdered-collections cs s inv = record {
  base = inv.base;
  numbered = inv.numbered;
  ends = inv.ends;
  applied = inv.applied;
}
