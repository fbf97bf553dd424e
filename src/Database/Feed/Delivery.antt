-- ===== src/Database/Feed/Delivery.antt =====
-- What a watcher is given (src/index.js: watchChanges, publish).
use syncio.Base.{
  ℕ, suc, ◌+◌, ◌-◌, ◌≤◌, ◌<◌, ◌≡◌, refl, sym, ap, ◌∙◌, subst, true, none, List, [], ◌∷◌, ◌++◌, ok,
  arith, lt→ltb, map, le→leb, length, length-append, min, max_safe_integer,
}
use syncio.Change.{Event}
use syncio.Database.State.{Watcher, Database}
use syncio.Database.History.{Numbered, IsOrdered, Numbered-append}
use syncio.Database.Commit.{notify, notify_listener, publish, wants}
use syncio.Database.Feed.{validate_optional_name, catch_up, watch_changes, add_watcher}
use syncio.Database.Feed.Changes.{changes_since_lem, resume_status_lem, select-seen}

Numbered-last :
    (from : ℕ) (es : List Event) (e : Event)
    → Numbered from (es ++ e ∷ [])
    → e.sequence ≡ suc (from + length es)
Numbered-last from [] e h = omega (arith, h.0)
Numbered-last from (d ∷ es) e h = omega (arith, Numbered-last (suc from) es e h.1)

-- What a watcher has, if it was given the changes behind `after` in order and without a gap.
pub record IsGiven (after count : ℕ) (w : Watcher) : Type 0 where
  pub every : w.collection ≡ none
  pub numbered : Numbered after w.received
  pub counted : length w.received ≡ count
  pub last : w.last_sequence ≡ after + count

catch_up-IsGiven :
    (es : List Event) (after count : ℕ) (w : Watcher)
    → IsGiven after count w
    → Numbered (after + count) es
    → IsGiven after (count + length es) (catch_up es w)
unfolding catch_up
catch_up-IsGiven [] after count w g h = subst (λ n. IsGiven after n w) (omega arith) g
catch_up-IsGiven (e ∷ es) after count w g h =
    let at : suc (after + count) ≡ after + suc count = omega arith in
    let total : suc count + length es ≡ count + suc (length es) = omega arith in
    let seen : Watcher = record w { last_sequence = e.sequence; received = w.received ++ e ∷ [] } in
    subst (λ n. IsGiven after n (catch_up es seen)) total
      (catch_up-IsGiven es after (suc count) seen
        (record {
          every = g.every;
          numbered = Numbered-append after w.received e g.numbered (omega (arith, h.0, g.counted));
          counted = omega (arith, length-append {0} w.received (e ∷ []), g.counted);
          last = omega (arith, h.0);
        })
        (subst (λ k. Numbered k es) at (h.1)))

-- watchChanges at such a cursor, with no collection, gives its listener the first 10,000 changes
-- behind the cursor, in order and without a gap, or all of them if there are fewer.
pub watch_changes-IsGiven :
    (after : ℕ) (db : Database)
    → (inv : IsOrdered db.state) → inv.base ≤ after
    → after ≤ db.state.sequence
    → after ≤ max_safe_integer
    → (w : Watcher) × (watch_changes none after db ≡ ok w)
      × IsGiven after (min 10000 (db.state.sequence - after)) w
unfolding watch_changes validate_optional_name
watch_changes-IsGiven after db inv from to safe =
    let (es, found, numbered, counted) =
      changes_since_lem after 10000 db inv from to safe (omega arith) (omega arith) in
    let start : Watcher = record { collection = none; last_sequence = after; received = [] } in
    let at : after + 0 ≡ after = omega arith in
    let total : 0 + length es ≡ min 10000 (db.state.sequence - after) = omega (arith, counted) in
    (
      catch_up es start,
      rw (
        le→leb after max_safe_integer safe,
        resume_status_lem after db inv safe,
        le→leb inv.base after from,
        le→leb after db.state.sequence to,
        found,
        select-seen db.state.sequence after es (omega (arith, counted)) numbered,
      ),
      subst (λ n. IsGiven after n (catch_up es start)) total
          (catch_up-IsGiven es after 0 start
            (record { every = refl; numbered = tt; counted = refl; last = sym at })
            (subst (λ k. Numbered k es) (sym at) numbered)),
    )

wants-every :
    (e : Event) (w : Watcher)
    → w.collection ≡ none
    → w.last_sequence < e.sequence
    → wants w e ≡ true
unfolding wants
wants-every e w every new = rw (lt→ltb w.last_sequence e.sequence new, every)

notify-IsGiven :
    (e : Event) (after count : ℕ) (w : Watcher)
    → IsGiven after count w
    → e.sequence ≡ suc (after + count)
    → IsGiven after (suc count) (notify e w)
unfolding notify
notify-IsGiven e after count w g at =
    rw (wants-every e w g.every (omega (arith, at, g.last))) (record {
      every = g.every;
      numbered = Numbered-append after w.received e g.numbered (omega (arith, at, g.counted));
      counted = omega (arith, length-append {0} w.received (e ∷ []), g.counted);
      last = omega (arith, at);
    })

publish-IsGiven :
    (es : List Event) (after count : ℕ) (db : Database) (w : Watcher) (rest : List Watcher)
    → db.change_listeners ≡ w ∷ rest
    → IsGiven after count w
    → Numbered (after + count) es
    → (w' : Watcher) × (rest' : List Watcher) × ((publish es db).change_listeners ≡ w' ∷ rest')
      × IsGiven after (count + length es) w'
unfolding publish
publish-IsGiven [] after count db w rest first g h =
    (w, rest, first, subst (λ n. IsGiven after n w) (omega arith) g)
publish-IsGiven (e ∷ es) after count db w rest first g h =
    let at : suc (after + count) ≡ after + suc count = omega arith in
    let total : suc count + length es ≡ count + suc (length es) = omega arith in
    let (w', rest', found, given) =
      publish-IsGiven es after (suc count)
        (record db {
          listeners = map (notify_listener e) db.listeners;
          change_listeners = map (notify e) db.change_listeners;
        })
        (notify e w) (map (notify e) rest) (ap (map (notify e)) first)
        (notify-IsGiven e after count w g (h.0)) (subst (λ k. Numbered k es) at (h.1)) in
    (w', rest', found, subst (λ n. IsGiven after n w') total given)

-- Watching all changes at such a cursor, with at most 10,000 changes behind it, gives the listener
-- these changes and then those that are published, if they are numbered from the sequence on: each
-- once, in order and without a gap.
pub watch_changes-publish :
    (after : ℕ) (db : Database) (es : List Event)
    → (inv : IsOrdered db.state) → inv.base ≤ after
    → after ≤ db.state.sequence
    → after ≤ max_safe_integer
    → db.state.sequence - after ≤ 10000
    → Numbered db.state.sequence es
    → (w w' : Watcher) × (rest : List Watcher) × (watch_changes none after db ≡ ok w)
      × ((publish es (add_watcher w db)).change_listeners ≡ w' ∷ rest)
      × IsGiven after (db.state.sequence - after + length es) w'
unfolding add_watcher
watch_changes-publish after db es inv from to safe few h =
    let n : ℕ = db.state.sequence - after in
    let (w, found, given) = watch_changes-IsGiven after db inv from to safe in
    let all : min 10000 n ≡ n = omega arith in
    let at : db.state.sequence ≡ after + n = omega arith in
    let (w', rest, first, more) =
      publish-IsGiven es after n (record db { change_listeners = w ∷ db.change_listeners }) w
        db.change_listeners refl (subst (λ k. IsGiven after k w) all given)
        (subst (λ k. Numbered k es) at h) in
    (w, w', rest, found, first, more)

-- Watching all changes at such a cursor with more than 10,000 changes behind it gives the listener
-- the first 10,000 of them and then the next published change: what lies between is never delivered,
-- and what was delivered is not numbered without a gap.
pub watch_changes-skips :
    (after : ℕ) (db : Database) (e : Event)
    → (inv : IsOrdered db.state) → inv.base ≤ after
    → after ≤ max_safe_integer
    → after + 10000 < db.state.sequence
    → e.sequence ≡ suc db.state.sequence
    → (w : Watcher) × (watch_changes none after db ≡ ok w)
      × ((notify e w).received ≡ w.received ++ e ∷ [])
      × (length w.received ≡ 10000)
      × ¬ (Numbered after (w.received ++ e ∷ []))
unfolding notify
watch_changes-skips after db e inv from safe many at =
    let (w, found, given) = watch_changes-IsGiven after db inv from (omega arith) safe in
    let few : min 10000 (db.state.sequence - after) ≡ 10000 = omega arith in
    (
      w,
      found,
      rw (wants-every e w given.every (omega (arith, at, given.last, few))),
      given.counted ∙ few,
      λ h. absurd (omega (arith, at, given.counted, few, Numbered-last after w.received e h)),
    )
