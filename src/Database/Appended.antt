-- ===== src/Database/Appended.antt =====
-- What a run of appendChange does to the history (src/index.js: appendChange, transaction).
use native.Mathlib.Numerals.{add-one}
use mathlib.Core.List.{append-nil}
use syncio.Base.{
  ℕ, suc, ◌+◌, ◌-◌, ◌≤◌, ◌≡◌, refl, sym, ap, ◌∙◌, subst, Bool, false, List, [], ◌∷◌, ◌++◌, ok,
  arith, length, append_cons_assoc, drop,
}
use syncio.Base.Maps.{Map}
use syncio.Change.{Change, Event}
use syncio.Database.State.{Collection, State}
use syncio.Database.Events.{Env, make_event, record_event, append_change, append_changes}
use syncio.Database.History.{
  Numbered, IsOrdered, record_event-IsOrdered, prune-IsOrdered, changes-prune, prune-fields,
  keep_last, keep_last-append, length-prune,
}
use syncio.Database.Same.{Equality, AlikeMaps}
use syncio.Database.Effects.{Extends, effects}

module _ (retention : ℕ) (env : Env) (preserve : Bool) where
  -- The state behind one appended change.
  abbrev pub next : State → Change → State
  next s c = (append_change retention env preserve s c).1

  abbrev pub made : State → Change → Event
  made s c = (append_change retention env preserve s c).0

  pub next-IsOrdered : (s : State) (c : Change) → IsOrdered s → IsOrdered (next s c)
  unfolding append_change make_event
  next-IsOrdered s c inv =
      prune-IsOrdered retention _ (record_event-IsOrdered (made s c) s inv (add-one s.sequence))

  pub record IsNext (s : State) (e : Event) (t : State) : Type 0 where
    pub version : t.version ≡ s.version
    pub database_id : t.database_id ≡ s.database_id
    pub collections : t.collections ≡ s.collections
    pub numbered : e.sequence ≡ suc s.sequence
    pub sequence : t.sequence ≡ suc s.sequence
    pub changes : t.changes ≡ keep_last retention (s.changes ++ e ∷ [])
    pub short : length t.changes ≤ retention

  pub next_lem : (s : State) (c : Change) → IsNext s (made s c) (next s c)
  unfolding append_change make_event record_event
  next_lem s c =
      let pushed : State = record_event (made s c) (record s { sequence = s.sequence + 1 }) in
      let fields = prune-fields retention pushed in
      record {
        version = fields.0;
        database_id = fields.1;
        collections = fields.3;
        numbered = add-one s.sequence;
        sequence = fields.2 ∙ add-one s.sequence;
        changes = changes-prune retention pushed;
        short = length-prune retention pushed;
      }

  -- Appending one change to a draft is a commit that extends the state, if the event's effect on the
  -- state's collections leaves what the draft holds.
  pub append_change-Extends :
      (q : Equality) (s : State) (cs : Map Collection) (c : Change) (after : Map Collection)
      → effects (made (record s { collections = cs }) c ∷ []) s.collections ≡ ok after
      → AlikeMaps q after cs
      → Extends q retention s
          (made (record s { collections = cs }) c ∷ [])
          (next (record s { collections = cs }) c)
  append_change-Extends q s cs c after effect alike =
      let one = next_lem (record s { collections = cs }) c in
      record {
        version = sym one.version;
        database_id = sym one.database_id;
        numbered = (one.numbered, tt);
        sequence = omega (arith, one.sequence);
        changes = one.changes;
        after = after;
        effect = effect;
        records = rw (one.collections) alike;
      }

module _ (retention : ℕ) (env : Env) where
  record IsAppended (s : State) (es : List Event) (t : State) : Type 0 where
    version : t.version ≡ s.version
    database_id : t.database_id ≡ s.database_id
    collections : t.collections ≡ s.collections
    numbered : Numbered s.sequence es
    sequence : t.sequence ≡ s.sequence + length es
    changes : keep_last retention t.changes ≡ keep_last retention (s.changes ++ es)

  append_changes_lem :
      (s : State) (cs : List Change)
      → IsAppended s (append_changes retention env s cs).0 (append_changes retention env s cs).1
  unfolding append_changes
  append_changes_lem s [] = record {
    version = refl;
    database_id = refl;
    collections = refl;
    numbered = tt;
    sequence = omega arith;
    changes = ap (keep_last retention) (sym (append-nil s.changes));
  }
  append_changes_lem s (c ∷ cs) =
      let one = next_lem retention env false s c in
      let rest = append_changes_lem (next retention env false s c) cs in
      let es = (append_changes retention env (next retention env false s c) cs).0 in
      record {
        version = rest.version ∙ one.version;
        database_id = rest.database_id ∙ one.database_id;
        collections = rest.collections ∙ one.collections;
        numbered = (one.numbered, subst (λ n. Numbered n es) one.sequence rest.numbered);
        sequence = omega (arith, rest.sequence, one.sequence);
        changes =
            rest.changes
            ∙ ap (λ (h : List Event). keep_last retention (h ++ es)) one.changes
            ∙ keep_last-append retention (s.changes ++ made retention env false s c ∷ []) es
            ∙ ap (keep_last retention)
                (append_cons_assoc s.changes (made retention env false s c) es);
      }

  pub append_changes-IsOrdered :
      (s : State) (cs : List Change) → IsOrdered s → IsOrdered (append_changes retention env s cs).1
  unfolding append_changes
  append_changes-IsOrdered s [] inv = inv
  append_changes-IsOrdered s (c ∷ cs) inv =
      append_changes-IsOrdered (next retention env false s c) cs
        (next-IsOrdered retention env false s c inv)

  -- Behind an appended change the history is within its retention.
  length-append_changes :
      (s : State) (c : Change) (cs : List Change)
      → length (append_changes retention env s (c ∷ cs)).1.changes ≤ retention
  unfolding append_changes
  length-append_changes s c [] = (next_lem retention env false s c).short
  length-append_changes s c (d ∷ cs) = length-append_changes (next retention env false s c) d cs

  -- Appending changes to a draft is a commit that extends the state, if the events' effects on the
  -- state's collections leave what the draft holds.
  pub append_changes-Extends :
      (q : Equality) (s : State) (cs : Map Collection) (c : Change) (changes : List Change)
      (after : Map Collection)
      → effects
          (append_changes retention env (record s { collections = cs }) (c ∷ changes)).0
          s.collections
        ≡ ok after
      → AlikeMaps q after cs
      → Extends q retention s
          (append_changes retention env (record s { collections = cs }) (c ∷ changes)).0
          (append_changes retention env (record s { collections = cs }) (c ∷ changes)).1
  append_changes-Extends q s cs c changes after effect alike =
      let s' : State = record s { collections = cs } in
      let all = append_changes_lem s' (c ∷ changes) in
      let t : State = (append_changes retention env s' (c ∷ changes)).1 in
      let short : length t.changes ≤ retention = length-append_changes s' c changes in
      record {
        version = sym all.version;
        database_id = sym all.database_id;
        numbered = all.numbered;
        sequence = all.sequence;
        changes =
            ap (λ n. drop n t.changes) {x = 0} {y = length t.changes - retention} (omega arith)
            ∙ all.changes;
        after = after;
        effect = effect;
        records = rw (all.collections) alike;
      }

pub append_changes-collections :
    (retention : ℕ) (env : Env) (s : State) (cs : List Change)
    → (append_changes retention env s cs).1.collections ≡ s.collections
append_changes-collections retention env s cs = (append_changes_lem retention env s cs).collections
