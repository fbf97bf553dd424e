-- ===== src/Wal/File.antt =====
-- What the file of the log gives back (src/wal.js: append, compactThrough, readWalEntries).
use syncio.Base.{
  ℕ, ◌<◌, ◌≤◌, max_safe_integer, ◌≡◌, ◌≢◌, refl, ap, Bool, true, List, [], ◌∷◌, ◌++◌, map, Option,
  some, none, arith, String, eq_iff, Error, ok, err, corrupt_wal, io_failed, >>=-eq-ok,
  require-eq-ok,
}
use native.Mathlib.Nat.{le_refl}
use text.Mathlib.TextPositions.{eq_refl}
use syncio.Change.{Event}
use syncio.Wal.{
  Entry, Payload, Line, json, garbage, blank, WriteAheadLog, append, read_entries, read_lines,
  write_line, validate_entry, assert_sequence, nonempty, follows, make_entry, check_append,
  AppendOutcome, synced, unwritten, partial, file_of, compact_through, replaced,
}
use syncio.Wal.Chain.{Chain, chain_end, Chain-append, list_after-end}

map-json-append :
    (es : List Entry) (e : Entry) → map json (es ++ e ∷ []) ≡ map json es ++ json e ∷ []
map-json-append [] e = refl
map-json-append (d ∷ es) e = ap (λ t. json d ∷ t) (map-json-append es e)

-- Appending to the file of some entries makes the file of one entry more.
pub write_line-file_of :
    (es : List Entry) (e : Entry) → write_line (file_of es) e ≡ file_of (es ++ e ∷ [])
write_line-file_of es e = rw (map-json-append es e)

pub check_append-facts :
    (database_id : String) (from to : ℕ) (events : List Event)
    → check_append database_id from to events ≡ ok tt
    → (from < to) × (to ≤ max_safe_integer)
unfolding check_append assert_sequence
check_append-facts database_id from to events h = (ground arith, ground arith)

module _ (digest : Payload → String) where
  -- An entry that readWalEntries accepts on its own.
  abbrev pub IsSound : Entry → Type 0
  IsSound e = validate_entry digest e ≡ ok tt

  abbrev pub AllSound : List Entry → Type 0
  AllSound [] = Unit
  AllSound (e ∷ es) = IsSound e × AllSound es

  -- The file holds the entries of memory, and they continue one another from `base` on.
  pub record IsClean (base : ℕ) (w : WriteAheadLog) : Type 0 where
    pub same : w.file ≡ file_of w.entries
    pub chained : Chain base w.entries
    pub sound : AllSound w.entries

  read_lines-Chain :
      (before : Entry) (es : List Entry)
      → Chain before.result_sequence es
      → AllSound es
      → read_lines digest (some before) (map json es) ≡ ok es
  unfolding read_lines follows
  read_lines-Chain before [] h s = refl
  read_lines-Chain before (e ∷ es) h s =
      rw (s.0) (rw (read_lines-Chain e es h.2 s.1) (ground (arith, h.0)))

  pub read_entries-file_of :
      (base : ℕ) (es : List Entry)
      → Chain base es
      → AllSound es
      → (torn : Bool) → read_entries digest (record { lines = map json es; torn = torn }) ≡ ok es
  unfolding read_entries follows
  read_entries-file_of base [] h s torn = refl
  read_entries-file_of base (e ∷ es) h s torn = rw (s.0) (rw (read_lines-Chain e es h.2 s.1) refl)

  pub AllSound-append :
      (es : List Entry) (e : Entry) → AllSound es → IsSound e → AllSound (es ++ e ∷ [])
  AllSound-append [] e h s = (s, tt)
  AllSound-append (d ∷ es) e h s = (h.0, AllSound-append es e h.1 s)

  -- The checks of append are those that reading makes of the entry.
  pub make_entry-IsSound :
      (database_id : String) (base result : ℕ) (events : List Event)
      → check_append database_id base result events ≡ ok tt
      → IsSound (make_entry digest database_id base result events)
  unfolding validate_entry check_append make_entry assert_sequence nonempty
  make_entry-IsSound database_id base result events h =
      ground (arith, eq_refl (digest (make_entry digest database_id base result events).payload))

  -- What append returns and leaves, by its checks and by what became of the line.
  module _ (outcome : AppendOutcome) (database_id : String) (from to : ℕ) (events : List Event)
      (w : WriteAheadLog) where
    pub append-refused :
        (e : Error)
        → check_append database_id from to events ≡ err e
        → append digest outcome database_id from to events w ≡ (err e, w)
    unfolding append
    append-refused e refused = rw (refused, append)

    pub append-unwritten :
        outcome ≡ unwritten
        → check_append database_id from to events ≡ ok tt
        → append digest outcome database_id from to events w ≡ (err io_failed, w)
    unfolding append
    append-unwritten line checked = rw (checked, append, line)

    pub append-synced :
        outcome ≡ synced
        → check_append database_id from to events ≡ ok tt
        → append digest outcome database_id from to events w ≡ (
          ok (make_entry digest database_id from to events),
          record {
            file = write_line w.file (make_entry digest database_id from to events);
            entries = w.entries ++ make_entry digest database_id from to events ∷ [];
          },
        )
    unfolding append
    append-synced line checked = rw (checked, append, line)

  module _ (base : ℕ) (w : WriteAheadLog) (database_id : String) (from to : ℕ) (events : List Event)
      (clean : IsClean base w) (at : from ≡ chain_end base w.entries)
      (checked : check_append database_id from to events ≡ ok tt) where
    abbrev added : Entry
    added = make_entry digest database_id from to events

    -- With its arguments checked and its line synced, append adds the entry to the list.
    pub entries-append :
        (append digest synced database_id from to events w).1.entries ≡ w.entries ++ added ∷ []
    unfolding append
    entries-append = rw (checked, append)

    pub append-IsClean : IsClean base (append digest synced database_id from to events w).1
    unfolding append make_entry
    append-IsClean =
        rw (checked, append)
          (record {
            same = rw (clean.same, map-json-append w.entries added);
            chained =
                Chain-append base w.entries added clean.chained at
                  (check_append-facts database_id from to events checked).0;
            sound =
                AllSound-append w.entries added clean.sound
                  (make_entry-IsSound database_id from to events checked);
          })

  -- An append that wrote only a part of its line fails, and reading the file gives the old entries.
  pub read_entries-partial :
      (base : ℕ) (w : WriteAheadLog) (database_id : String) (from to : ℕ) (events : List Event)
      → IsClean base w
      → check_append database_id from to events ≡ ok tt
      → ((append digest partial database_id from to events w).0 ≡ err io_failed)
        × (read_entries digest (append digest partial database_id from to events w).1.file
            ≡ ok w.entries)
  unfolding append
  read_entries-partial base w database_id from to events clean checked = (
    rw (checked, append),
    rw (checked, append)
        (rw clean.same (read_entries-file_of base w.entries clean.chained clean.sound true)),
  )

  read_lines-garbage :
      (before : Option Entry) (lines : List Line) (rest : List Entry)
      → read_lines digest before (lines ++ garbage ∷ []) ≢ ok rest
  unfolding read_lines
  read_lines-garbage before [] rest h = cc
  read_lines-garbage before (blank ∷ lines) rest h = read_lines-garbage before lines rest h
  read_lines-garbage before (garbage ∷ lines) rest h = cc
  read_lines-garbage before (json e ∷ lines) rest h =
      let (_, _, h₁) = >>=-eq-ok (validate_entry digest e) _ h in
      let (_, h₂) = require-eq-ok (follows before e) corrupt_wal _ h₁ in
      let (got, eq, _) = >>=-eq-ok (read_lines digest (some e) (lines ++ garbage ∷ [])) _ h₂ in
      read_lines-garbage (some e) lines got eq

  -- Behind a torn tail, an append that succeeds leaves a file that cannot be read any more: the log
  -- returns the entry as committed, and opening the file fails.
  pub append-torn :
      (w : WriteAheadLog) (database_id : String) (from to : ℕ) (events : List Event)
      (read : List Entry)
      → w.file.torn ≡ true
      → check_append database_id from to events ≡ ok tt
      → ((append digest synced database_id from to events w).0
          ≡ ok (make_entry digest database_id from to events))
        × (read_entries digest (append digest synced database_id from to events w).1.file ≢ ok read)
  unfolding read_entries append make_entry
  append-torn w database_id from to events read torn checked = (
    rw (checked, append),
    rw (checked, append) (rw torn (read_lines-garbage none w.file.lines read)),
  )

  -- A line whose digest is not that of its payload is refused wherever it stands, with every log
  -- before it and behind it.
  pub read_lines-tampered :
      (before : Option Entry) (lines : List Line) (e : Entry) (more : List Line) (read : List Entry)
      → e.digest ≢ digest e.payload
      → read_lines digest before (lines ++ json e ∷ more) ≢ ok read
  unfolding read_lines validate_entry
  read_lines-tampered before [] e more read bad h =
      ground (arith, eq_iff e.digest (digest e.payload))
  read_lines-tampered before (blank ∷ lines) e more read bad h =
      read_lines-tampered before lines e more read bad h
  read_lines-tampered before (garbage ∷ lines) e more read bad h = cc
  read_lines-tampered before (json d ∷ lines) e more read bad h =
      let (_, _, h₁) = >>=-eq-ok (validate_entry digest d) _ h in
      let (_, h₂) = require-eq-ok (follows before d) corrupt_wal _ h₁ in
      let (got, eq, _) = >>=-eq-ok (read_lines digest (some d) (lines ++ json e ∷ more)) _ h₂ in
      read_lines-tampered (some d) lines e more got bad eq

  -- Compaction through the sequence at which the entry list ends empties a clean log.
  pub compact_through-end :
      (base : ℕ) (w : WriteAheadLog)
      → IsClean base w
      → (compact_through replaced (chain_end base w.entries) w)
        ≡ (ok 0, record { file = file_of []; entries = [] })
  unfolding compact_through
  compact_through-end base w clean =
      rw (list_after-end base w.entries clean.chained (chain_end base w.entries) (le_refl _))
