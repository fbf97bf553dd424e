-- ===== src/Database/Feed/Examples.antt =====
-- Change feeds on concrete histories, and witnesses (src/index.js: changesSince, watchChanges).
use syncio.Base.{
  ℕ, zero, suc, ◌+◌, ◌-◌, ◌≡◌, refl, min, none, List, [], ◌∷◌, ◌++◌, ok, arith, length,
}
use syncio.Base.Maps.{get}
use syncio.Change.{Event}
use syncio.Wal.Examples.{sample_event}
use syncio.Database.State.{State, Watcher, Database}
use syncio.Database.History.{Numbered, IsOrdered}
use syncio.Database.Effects.{recorded, recorded-IsOrdered}
use syncio.Database.Commit.{publish, notify}
use syncio.Database.Run.{created, empty_state}
use syncio.Database.Feed.{changes_since, watch_changes, add_watcher}
use syncio.Database.Feed.Delivery.{IsGiven, watch_changes-publish, watch_changes-skips}
use syncio.Database.Feed.Changes.{changes_since_lem}

-- The events with the next `n` sequences.
unfoldable pub many : ℕ → ℕ → List Event
many zero from = []
many (suc n) from = sample_event (suc from) ∷ many n (suc from)

many-Numbered : (n from : ℕ) → Numbered from (many n from)
unfolding many
many-Numbered zero from = tt
many-Numbered (suc n) from = (refl, many-Numbered n (suc from))

length-many : (n from : ℕ) → length (many n from) ≡ n
unfolding many
length-many zero from = refl
length-many (suc n) from = omega (arith, length-many n (suc from))

abbrev filled : ℕ → State
filled n = record (recorded (many n 0) (empty_state "db")) { sequence = 0 + length (many n 0) }

empty-IsOrdered : IsOrdered (empty_state "db")
unfolding get
empty-IsOrdered = record { base = 0; numbered = tt; ends = refl; applied = λ id. refl }

abbrev filled-IsOrdered : (n : ℕ) → IsOrdered (filled n)
filled-IsOrdered n = record {
  base = 0;
  numbered = many-Numbered n 0;
  ends = refl;
  applied =
      (recorded-IsOrdered (many n 0) (empty_state "db") empty-IsOrdered
        (many-Numbered n 0)).applied;
}

abbrev filled_db : ℕ → Database
filled_db n = record (created 20000 256 "db") { state = filled n }

changes_since_lem_example :
    (es : List Event) × (changes_since 2 2 none (filled_db 5) ≡ ok es)
    × Numbered 2 es
    × (length es ≡ min 2 ((filled_db 5).state.sequence - 2))
changes_since_lem_example =
    changes_since_lem 2 2 (filled_db 5) (filled-IsOrdered 5) (omega arith)
      (omega (arith, length-many 5 0)) (omega arith) (omega arith) (omega arith)

watch_changes-publish_example :
    (w w' : Watcher) × (rest : List Watcher) × (watch_changes none 2 (filled_db 5) ≡ ok w)
    × ((publish
          (many 2 (filled_db 5).state.sequence)
          (add_watcher w (filled_db 5))).change_listeners
        ≡ w' ∷ rest)
    × IsGiven 2 ((filled_db 5).state.sequence - 2 + length (many 2 (filled_db 5).state.sequence)) w'
watch_changes-publish_example =
    watch_changes-publish 2 (filled_db 5) (many 2 (filled_db 5).state.sequence) (filled-IsOrdered 5)
      (omega arith) (omega (arith, length-many 5 0)) (omega arith) (omega (arith, length-many 5 0))
      (many-Numbered 2 (filled_db 5).state.sequence)

watch_changes-skips_example :
    (w : Watcher) × (watch_changes none 5 (filled_db 10006) ≡ ok w)
    × ((notify (sample_event (suc (filled_db 10006).state.sequence)) w).received
        ≡ w.received ++ sample_event (suc (filled_db 10006).state.sequence) ∷ [])
    × (length w.received ≡ 10000)
    × ¬ (Numbered 5 (w.received ++ sample_event (suc (filled_db 10006).state.sequence) ∷ []))
watch_changes-skips_example =
    watch_changes-skips 5 (filled_db 10006) (sample_event (suc (filled_db 10006).state.sequence))
      (filled-IsOrdered 10006) (omega arith) (omega arith) (omega (arith, length-many 10006 0)) refl
