-- ===== src/Database/Feed/Changes.antt =====
-- What changesSince and resumeStatus give in an ordered database (src/index.js).
use syncio.Base.{
  ℕ, zero, suc, ◌+◌, ◌-◌, ◌≤◌, ◌≡◌, refl, subst, Bool, ◌&&◌, none, List, [], ◌∷◌, ok, arith, leb,
  ltb, le→leb, length, take, drop, select, length-drop, min, max_safe_integer,
}
use syncio.Change.{Event}
use syncio.Database.State.{Database}
use syncio.Database.History.{Numbered, IsOrdered, Numbered-drop}
use syncio.Database.Feed.{changes_since, resume_status, oldest, validate_optional_name, is_of}

Numbered-take : (n from : ℕ) (es : List Event) → Numbered from es → Numbered from (take n es)
Numbered-take zero from es h = tt
Numbered-take (suc n) from [] h = tt
Numbered-take (suc n) from (e ∷ es) h = (h.0, Numbered-take n (suc from) es h.1)

length-take : (n : ℕ) (es : List Event) → length (take n es) ≡ min n (length es)
length-take zero es = omega arith
length-take (suc n) [] = omega arith
length-take (suc n) (e ∷ es) = omega (arith, length-take n es)

abbrev behind : ℕ → Event → Bool
behind cursor e = ltb cursor e.sequence && is_of none e

select-all :
    (cursor from : ℕ) (es : List Event)
    → cursor ≤ from
    → Numbered from es
    → select (behind cursor) es ≡ es
unfolding is_of
select-all cursor from [] le h = refl
select-all cursor from (e ∷ es) le h =
    ground (arith, h.0, select-all cursor (suc from) es (omega arith) h.1)

-- Behind a cursor that lies in the history stand the events from the cursor on.
select-drop :
    (n from : ℕ) (es : List Event)
    → n ≤ length es
    → Numbered from es
    → select (behind (from + n)) es ≡ drop n es
unfolding is_of
select-drop zero from es le h = select-all (from + 0) from es (omega arith) h
select-drop (suc n) from [] le h = absurd (omega arith)
select-drop (suc n) from (e ∷ es) le h =
    let at : suc from + n ≡ from + suc n = omega arith in
    let rest =
      subst (λ k. select (behind k) es ≡ drop n es) at
        (select-drop n (suc from) es (omega arith) h.1) in
    ground (arith, h.0, rest)

pub select-seen :
    (sequence from : ℕ) (es : List Event)
    → from + length es ≤ sequence
    → Numbered from es
    → select (λ e. leb e.sequence sequence) es ≡ es
select-seen sequence from [] le h = refl
select-seen sequence from (e ∷ es) le h =
    ground (arith, h.0, select-seen sequence (suc from) es (omega arith) h.1)

oldest-base :
    (sequence base : ℕ) (es : List Event)
    → Numbered base es
    → base + length es ≡ sequence
    → oldest sequence es ≡ suc base
unfolding oldest
oldest-base sequence base [] h ends = omega arith
oldest-base sequence base (e ∷ es) h ends = h.0

-- In an ordered database, a safe cursor is resumable exactly if it lies between the number of the last
-- change that is no longer retained and the sequence.
pub resume_status_lem :
    (cursor : ℕ) (db : Database)
    → (inv : IsOrdered db.state) → cursor ≤ max_safe_integer
    → resume_status cursor db
      ≡ ok (record {
        cursor = cursor;
        sequence = db.state.sequence;
        oldest_retained = suc inv.base;
        resumable = leb inv.base cursor && leb cursor db.state.sequence;
      })
unfolding resume_status
resume_status_lem cursor db inv safe =
    let before : suc inv.base - 1 ≡ inv.base = omega arith in
    rw (
      le→leb cursor max_safe_integer safe,
      oldest-base db.state.sequence inv.base db.state.changes inv.numbered inv.ends,
      before,
    )

changes_since-drop :
    (cursor limit : ℕ) (db : Database)
    → (inv : IsOrdered db.state) → inv.base ≤ cursor
    → cursor ≤ db.state.sequence
    → cursor ≤ max_safe_integer
    → 1 ≤ limit
    → limit ≤ 10000
    → changes_since cursor limit none db
      ≡ ok (take limit (drop (cursor - inv.base) db.state.changes))
unfolding changes_since validate_optional_name
changes_since-drop cursor limit db inv from to safe l₁ l₂ =
    let n : ℕ = cursor - inv.base in
    let at : inv.base + n ≡ cursor = omega arith in
    let found =
      subst (λ k. select (behind k) db.state.changes ≡ drop n db.state.changes) at
        (select-drop n inv.base db.state.changes (omega (arith, inv.ends)) inv.numbered) in
    rw (le→leb cursor max_safe_integer safe, le→leb 1 limit l₁, le→leb limit 10000 l₂, found)

-- In an ordered database, changesSince at a safe cursor between the number of the last change that is
-- no longer retained and the sequence, with a limit in its range and no collection, gives the changes
-- numbered from the cursor on without a gap: as many as the limit, or all if there are fewer.
pub changes_since_lem :
    (cursor limit : ℕ) (db : Database)
    → (inv : IsOrdered db.state) → inv.base ≤ cursor
    → cursor ≤ db.state.sequence
    → cursor ≤ max_safe_integer
    → 1 ≤ limit
    → limit ≤ 10000
    → (es : List Event) × (changes_since cursor limit none db ≡ ok es)
      × Numbered cursor es
      × (length es ≡ min limit (db.state.sequence - cursor))
changes_since_lem cursor limit db inv from to safe l₁ l₂ =
    let n : ℕ = cursor - inv.base in
    let at : inv.base + n ≡ cursor = omega arith in
    let rest : List Event = drop n db.state.changes in
    (
      take limit rest,
      changes_since-drop cursor limit db inv from to safe l₁ l₂,
      Numbered-take limit cursor rest (
          subst (λ k. Numbered k rest) at
            (Numbered-drop n inv.base db.state.changes (omega (arith, inv.ends)) inv.numbered)),
      omega (arith, length-take limit rest, length-drop n db.state.changes, inv.ends),
    )
