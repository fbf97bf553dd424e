-- ===== src/Wal.antt =====
-- src/wal.js: the write-ahead log, its file and its in-memory list of entries.
-- The file is text, one entry to a line. Of a line the code asks only what JSON.parse makes of it, so
-- a line is blank, garbage or an entry; what stands behind the last newline is the torn tail.
-- A torn tail is a non-empty part of an entry's line, so it begins with `{"format"` or a part of that,
-- its first brace is open or nothing follows it, and text that is appended to it completes a line
-- that JSON.parse refuses. The digest (SHA-256 of the payload's JSON) is a parameter.
pub mod Chain
pub mod File
pub mod Written
pub mod Examples
use syncio.Base.{
  ℕ, ◌≤◌, ◌<◌, String, Bool, true, false, not, ◌&&◌, Option, none, some, List, [], ◌∷◌, ◌++◌, map,
  Error, Result, ok, err, type_error, corrupt_wal, io_failed, ◌>>=◌, ◌>>◌, require, ltb, leb, eqb,
  ◌==◌, select, length, last?, if◌then◌else◌, max_safe_integer,
}
use syncio.Change.{Event}

abbrev pub format : String
format = "syncio-wal/1"

pub record Payload : Type 0 where
  pub format : String
  pub database_id : String
  pub base_sequence : ℕ
  pub result_sequence : ℕ
  pub events : List Event

pub record Entry : Type 0 where
  pub payload : Payload
  pub open payload use *
  pub digest : String

pub data Line : Type 0 where
  blank garbage : Line
  json : Entry → Line

-- `torn`: the text does not end in a newline.
pub record LogFile : Type 0 where
  pub lines : List Line
  pub torn : Bool

pub record WriteAheadLog : Type 0 where
  pub file : LogFile
  pub entries : List Entry

-- What the file system does with one appended line: it is there and synced, nothing was written, a
-- part was written, or all was written and the sync or the close failed.
pub data AppendOutcome : Type 0 where
  synced unwritten partial unsynced : AppendOutcome

-- What it does with an atomic replacement: done, failed before the rename, or failed behind it.
pub data ReplaceOutcome : Type 0 where
  replaced kept unconfirmed : ReplaceOutcome

unfoldable pub assert_sequence : ℕ → Result (Unit {0})
assert_sequence value = require (leb value max_safe_integer) type_error

unfoldable pub nonempty : List Event → Bool
nonempty [] = false
nonempty (e ∷ es) = true

-- The text of a file with the line of an entry and a newline appended. The line is JSON.stringify of the
-- entry, and is read as the entry where JSON keeps the values of its events; append does not ask
-- whether it does.
abbrev pub write_line : LogFile → Entry → LogFile
write_line f e = record {
  lines = f.lines ++ (if f.torn then garbage else json e) ∷ [];
  torn = false;
}

-- The argument checks of append, before anything is written.
unfoldable pub check_append : String → ℕ → ℕ → List Event → Result (Unit {0})
unfolding assert_sequence nonempty
check_append database_id base_sequence result_sequence events = do
  require (not (database_id == "")) type_error
  assert_sequence base_sequence
  assert_sequence result_sequence
  require (ltb base_sequence result_sequence) type_error
  require (nonempty events) type_error

-- `entries.length && entry.baseSequence !== entries.at(-1).resultSequence`
unfoldable pub follows : Option Entry → Entry → Bool
follows none entry = true
follows (some before) entry = eqb entry.base_sequence before.result_sequence

module _ (digest : Payload → String) where
  unfoldable pub make_entry : String → ℕ → ℕ → List Event → Entry
  make_entry database_id base_sequence result_sequence events =
      let p : Payload = record {
        format = format;
        database_id = database_id;
        base_sequence = base_sequence;
        result_sequence = result_sequence;
        events = events;
      } in
      record { payload = p; digest = digest p }

  -- append returns the log in every case: a failed write may have changed the file.
  unfoldable pub append :
      AppendOutcome → String → ℕ → ℕ → List Event → WriteAheadLog → Result Entry × WriteAheadLog
  append outcome database_id base_sequence result_sequence events w =
      let entry = make_entry database_id base_sequence result_sequence events in
      elim (check_append database_id base_sequence result_sequence events) [
        | err e ↦ (err e, w)
        | ok _ ↦ elim outcome [
          | synced ↦ (
            ok entry,
            record { file = write_line w.file entry; entries = w.entries ++ entry ∷ [] },
          )
          | unwritten ↦ (err io_failed, w)
          | partial ↦ (err io_failed, record w { file = record w.file { torn = true } })
          | unsynced ↦ (err io_failed, record w { file = write_line w.file entry })
        ]
      ]

  unfoldable pub validate_entry : Entry → Result (Unit {0})
  unfolding assert_sequence nonempty
  validate_entry entry = do
    require (entry.format == format && not (entry.database_id == "")) corrupt_wal
    assert_sequence entry.base_sequence
    assert_sequence entry.result_sequence
    require (ltb entry.base_sequence entry.result_sequence && nonempty entry.events) corrupt_wal
    require (entry.digest == digest entry.payload) corrupt_wal

  -- The loop of readWalEntries, with the entry read last.
  unfoldable pub read_lines : Option Entry → List Line → Result (List Entry)
  unfolding validate_entry follows
  read_lines before [] = ok []
  read_lines before (blank ∷ lines) = read_lines before lines
  read_lines before (garbage ∷ lines) = err corrupt_wal
  read_lines before (json entry ∷ lines) = do
    validate_entry entry
    require (follows before entry) corrupt_wal
    rest ← read_lines (some entry) lines
    ok (entry ∷ rest)

  -- What stands behind the last newline is dropped.
  unfoldable pub read_entries : LogFile → Result (List Entry)
  unfolding read_lines
  read_entries file = read_lines none file.lines

  unfoldable pub open_log : LogFile → Result WriteAheadLog
  unfolding read_entries
  open_log file = do entries ← read_entries file; ok (record { file = file; entries = entries })

unfoldable pub list_after : ℕ → List Entry → List Entry
list_after sequence entries = select (λ entry. ltb sequence entry.result_sequence) entries

abbrev pub file_of : List Entry → LogFile
file_of entries = record { lines = map json entries; torn = false }

unfoldable pub compact_through : ReplaceOutcome → ℕ → WriteAheadLog → Result ℕ × WriteAheadLog
unfolding list_after
compact_through outcome sequence w =
    let remaining = list_after sequence w.entries in
    elim outcome [
      | replaced ↦ (ok (length remaining), record { file = file_of remaining; entries = remaining })
      | kept ↦ (err io_failed, w)
      | unconfirmed ↦ (err io_failed, record w { file = file_of remaining })
    ]

unfoldable pub reset : ReplaceOutcome → WriteAheadLog → Result (Unit {0}) × WriteAheadLog
reset replaced w = (ok tt, record { file = file_of []; entries = [] })
reset kept w = (err io_failed, w)
reset unconfirmed w = (err io_failed, record w { file = file_of [] })
