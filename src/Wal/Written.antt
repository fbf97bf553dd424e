-- ===== src/Wal/Written.antt =====
-- The log with the text of its lines (src/wal.js: append, readWalEntries): a line of the file is what
-- JSON.stringify made of its entry, and is read as what JSON.parse makes of that text. The two
-- together are a parameter; wal.js does not ask whether the values of an event are ones that they keep.
use syncio.Base.{
  ◌≡◌, refl, sym, ap, ◌∙◌, ℕ, String, List, [], ◌∷◌, ◌++◌, All, All-append, map, ok, false,
}
use syncio.Json.{Value}
use syncio.Json.Text.{KeepsExact, IsExactEvent, parsed_event, parsed_events-exact}
use syncio.Change.{Event}
use syncio.Wal.{
  Payload, Entry, Line, blank, garbage, json, LogFile, file_of, WriteAheadLog, append, synced,
  make_entry, read_entries, check_append,
}
use syncio.Wal.Chain.{chain_end}
use syncio.Wal.File.{IsClean, append-IsClean, entries-append, read_entries-file_of}

module _ (parsed : Value → Value) where
  abbrev pub parsed_entry : Entry → Entry
  parsed_entry e = record e {
    payload = record e.payload { events = map (parsed_event parsed) e.events };
  }

  abbrev pub parsed_line : Line → Line
  parsed_line blank = blank
  parsed_line garbage = garbage
  parsed_line (json e) = json (parsed_entry e)

  -- A file with its lines as JSON.parse reads them.
  abbrev pub parsed_file : LogFile → LogFile
  parsed_file f = record f { lines = map parsed_line f.lines }

abbrev pub IsExactEntry : Entry → Type 0
IsExactEntry e = All IsExactEvent e.events

module _ (parsed : Value → Value) (keeps : KeepsExact parsed) where
  parsed_entry-exact : (e : Entry) → IsExactEntry e → parsed_entry parsed e ≡ e
  parsed_entry-exact e exact =
      ap (λ events. record e { payload = record e.payload { events = events } })
        (parsed_events-exact parsed keeps e.events exact)

  parsed_lines-exact :
      (es : List Entry) → All IsExactEntry es → map (parsed_line parsed) (map json es) ≡ map json es
  parsed_lines-exact [] h = refl
  parsed_lines-exact (e ∷ es) (here, there) =
      rw (parsed_entry-exact e here, parsed_lines-exact es there) refl

  pub parsed_file_of :
      (es : List Entry) → All IsExactEntry es → parsed_file parsed (file_of es) ≡ file_of es
  parsed_file_of es exact =
      ap (λ lines. record { lines = lines; torn = false }) (parsed_lines-exact es exact)

  module _ (digest : Payload → String) where
    -- After an append whose line was synced, reading the text of the file gives the old entries and the
    -- new one, provided that the log was clean, that the entry continues it, and that the values of the
    -- old and the new events are ones that JSON keeps.
    pub read_entries-append :
        (base : ℕ) (w : WriteAheadLog) (database_id : String) (from to : ℕ) (events : List Event)
        → IsClean digest base w
        → from ≡ chain_end base w.entries
        → check_append database_id from to events ≡ ok tt
        → All IsExactEntry w.entries
        → All IsExactEvent events
        → read_entries digest
            (parsed_file parsed (append digest synced database_id from to events w).1.file)
          ≡ ok (w.entries ++ make_entry digest database_id from to events ∷ [])
    unfolding make_entry
    read_entries-append base w database_id from to events clean at checked old new =
        let after = append-IsClean digest base w database_id from to events clean at checked in
        let entries = entries-append digest base w database_id from to events clean at checked in
        let added = make_entry digest database_id from to events in
        let exact = All-append IsExactEntry w.entries (added ∷ []) old (new, tt) in
        rw (after.same, entries, parsed_file_of (w.entries ++ added ∷ []) exact)
          (ap (read_entries digest) (ap file_of (sym entries))
            ∙ read_entries-file_of digest base _ after.chained after.sound false
            ∙ ap ok entries)
