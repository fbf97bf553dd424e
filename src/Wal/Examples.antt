-- ===== src/Wal/Examples.antt =====
-- Runs of the log on concrete inputs, and witnesses (src/wal.js).
use syncio.Base.{
  ℕ, ◌≡◌, ◌≢◌, refl, String, true, false, none, [], ◌∷◌, ◌++◌, ok, err, io_failed, corrupt_wal, eqb,
  ◌==◌, eq_iff, arith, if◌then◌else◌,
}
use syncio.Json.{Value, undefined, null, exotic, str}
use syncio.Json.Text.{is_exact, KeepsExact}
use syncio.Wal.Written.{parsed_file, read_entries-append}
use syncio.Change.{Event}
use syncio.Wal.{
  Payload, Entry, blank, json, WriteAheadLog, synced, partial, append, read_entries, read_lines,
  make_entry, check_append, assert_sequence, nonempty, file_of, validate_entry, follows,
}
use syncio.Wal.File.{IsClean, read_entries-partial, append-torn, read_lines-tampered}

-- A digest that tells entries of different databases and last sequences apart.
abbrev pub sample_digest : Payload → String
sample_digest p = if eqb p.result_sequence 1 then "one" else "other"

abbrev pub sample_event : ℕ → Event
sample_event n = record {
  collection = "notes";
  type = "remove";
  id = str "a";
  body = undefined;
  change_id = "c";
  origin = "db";
  source_sequence = none;
  sequence = n;
  at = "2026-01-01T00:00:00.000Z";
  source = none;
  received_at = none;
}

abbrev first_entry : Entry
first_entry = record {
  payload = record {
    format = "syncio-wal/1";
    database_id = "db";
    base_sequence = 0;
    result_sequence = 1;
    events = sample_event 1 ∷ [];
  };
  digest = "one";
}

abbrev one_log : WriteAheadLog
one_log = record { file = file_of (first_entry ∷ []); entries = first_entry ∷ [] }

first_entry-made : make_entry sample_digest "db" 0 1 (sample_event 1 ∷ []) ≡ first_entry
unfolding make_entry
first_entry-made = refl

one_log-IsClean : IsClean sample_digest 0 one_log
unfolding validate_entry assert_sequence nonempty
one_log-IsClean = record { same = refl; chained = (refl, omega arith, tt); sound = (refl, tt) }

second_checked : check_append "db" 1 3 (sample_event 2 ∷ sample_event 3 ∷ []) ≡ ok tt
unfolding check_append assert_sequence nonempty
second_checked = refl

abbrev torn_log : WriteAheadLog
torn_log = record one_log { file = record one_log.file { torn = true } }

-- A log of one entry is read back, with a torn tail and a blank line too.
read_torn : read_entries sample_digest torn_log.file ≡ ok (first_entry ∷ [])
unfolding read_entries follows
read_torn = refl

read_blank :
    read_entries sample_digest (record { lines = blank ∷ json first_entry ∷ []; torn = false })
    ≡ ok (first_entry ∷ [])
unfolding read_entries follows
read_blank = refl

-- An entry that is there twice does not continue itself.
read_twice : read_entries sample_digest (file_of (first_entry ∷ first_entry ∷ [])) ≡ err corrupt_wal
unfolding read_entries follows
read_twice = refl

-- What JSON gives back, as far as the samples need it.
abbrev pub sample_json : Value → Value
sample_json undefined = null
sample_json (exotic b) = null
sample_json v = v

pub sample_json-KeepsExact : KeepsExact sample_json
unfolding is_exact
sample_json-KeepsExact undefined h = cc
sample_json-KeepsExact (exotic b) h = cc
sample_json-KeepsExact v h = refl

read_entries-append_example :
    read_entries sample_digest (
      parsed_file sample_json
        (append sample_digest synced "db" 1 3
          (sample_event 2 ∷ sample_event 3 ∷ [])
          one_log).1.file)
    ≡ ok (
        one_log.entries
        ++ make_entry sample_digest "db" 1 3 (sample_event 2 ∷ sample_event 3 ∷ []) ∷ [])
unfolding is_exact
read_entries-append_example =
    read_entries-append sample_json sample_json-KeepsExact sample_digest 0 one_log "db" 1 3
      (sample_event 2 ∷ sample_event 3 ∷ []) one_log-IsClean refl second_checked
      (((refl, refl), tt), tt) ((refl, refl), ((refl, refl), tt))

read_entries-partial_example :
    ((append sample_digest partial "db" 1 3 (sample_event 2 ∷ sample_event 3 ∷ []) one_log).0
      ≡ err io_failed)
    × (read_entries sample_digest
          (append sample_digest partial "db" 1 3
            (sample_event 2 ∷ sample_event 3 ∷ [])
            one_log).1.file
        ≡ ok one_log.entries)
read_entries-partial_example =
    read_entries-partial sample_digest 0 one_log "db" 1 3 (sample_event 2 ∷ sample_event 3 ∷ [])
      one_log-IsClean second_checked

append-torn_example :
    ((append sample_digest synced "db" 1 3 (sample_event 2 ∷ sample_event 3 ∷ []) torn_log).0
      ≡ ok (make_entry sample_digest "db" 1 3 (sample_event 2 ∷ sample_event 3 ∷ [])))
    × (read_entries sample_digest
          (append sample_digest synced "db" 1 3
            (sample_event 2 ∷ sample_event 3 ∷ [])
            torn_log).1.file
        ≢ ok (first_entry ∷ []))
append-torn_example =
    append-torn sample_digest torn_log "db" 1 3 (sample_event 2 ∷ sample_event 3 ∷ [])
      (first_entry ∷ []) refl second_checked

abbrev tampered : Entry
tampered = record first_entry { digest = "two" }

two_one : tampered.digest ≢ sample_digest tampered.payload
two_one h = let same : ("two" == "one") ≡ true = (eq_iff "two" "one").1 h in cc

read_lines-tampered_example :
    read_lines sample_digest none (blank ∷ json tampered ∷ []) ≢ ok (tampered ∷ [])
read_lines-tampered_example =
    read_lines-tampered sample_digest none (blank ∷ []) tampered [] (tampered ∷ []) two_one
