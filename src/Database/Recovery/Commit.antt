-- ===== src/Database/Recovery/Commit.antt =====
-- A commit keeps a durable database durable (src/index.js: commitDraft, publish; src/wal.js: append).
use syncio.Base.{
  ℕ, ◌+◌, ◌<◌, ◌≡◌, ◌⊎◌, refl, sym, ap, Bool, true, false, inl, inr, Result-cases, String, List, [],
  ◌∷◌, ◌++◌, Error, io_failed, Result, ok, err, >>=-eq-ok, ok-injective, arith, map, leb,
  if◌then◌else◌,
}
use syncio.Change.{Event}
use syncio.Wal.{
  Payload, Entry, WriteAheadLog, list_after, make_entry, check_append, synced, unwritten,
  write_line,
}
use syncio.Wal.Chain.{Chain-append, chain_end-append}
use syncio.Wal.File.{
  AllSound-append, make_entry-IsSound, append-refused, append-unwritten, append-synced,
  write_line-file_of, check_append-facts,
}
use syncio.Database.State.{State, FileContent, Database}
use syncio.Database.History.{IsOrdered}
use syncio.Database.Replay.{replay_wal, replay_entry}
use syncio.Database.Same.{Equality}
use syncio.Database.Effects.{Extends, IsEntryOf, replay_entry-Same}
use syncio.Database.Commit.{
  Io, commit_draft, commit_events, after_append, after_commit, publish, notify, notify_listener,
  try_checkpoint,
}
use syncio.Database.Recovery.{IsDurable, Durable}
use syncio.Database.Recovery.Checkpoint.{try_checkpoint-Durable}

-- Replaying one more entry.
replay_wal-append :
    (retention : ℕ) (s t u : State) (es : List Entry) (e : Entry)
    → replay_wal retention s es ≡ ok t
    → replay_entry retention t e ≡ ok u
    → replay_wal retention s (es ++ e ∷ []) ≡ ok u
unfolding replay_wal
replay_wal-append retention s t u [] e h k = rw (ok-injective h, k)
replay_wal-append retention s t u (d ∷ es) e h k =
    let (s', first, rest) = >>=-eq-ok (replay_entry retention s d) _ h in
    rw first (replay_wal-append retention s' t u es e rest k)

-- One more entry behind the cursor is one more that is listed.
list_after-append :
    (sequence : ℕ) (es : List Entry) (e : Entry)
    → sequence < e.result_sequence
    → list_after sequence (es ++ e ∷ []) ≡ list_after sequence es ++ e ∷ []
unfolding list_after
list_after-append sequence [] e h = ground arith
list_after-append sequence (d ∷ es) e h = ground (arith, list_after-append sequence es e h)

module _ (q : Equality) (digest : Payload → String) where
  module _ (retention : ℕ) (s draft : State) (wal : WriteAheadLog) (primary : FileContent)
      (es : List Event) (d : IsDurable q digest retention s wal primary)
      (commit : Extends q retention s es draft) (ordered : IsOrdered draft)
      (checked : check_append s.database_id s.sequence draft.sequence es ≡ ok tt) where
    abbrev pub entry : Entry
    entry = make_entry digest s.database_id s.sequence draft.sequence es

    is_entry : IsEntryOf s es draft entry
    unfolding make_entry
    is_entry = record { database_id = refl; base = refl; result = refl; events = refl }

    -- The log holds the commit, so the files hold the draft.
    pub appended :
        IsDurable q digest retention draft
          (record { file = write_line wal.file entry; entries = wal.entries ++ entry ∷ [] })
          primary
    unfolding make_entry
    appended =
        let (grows, safe) = check_append-facts s.database_id s.sequence draft.sequence es checked in
        let (t, run, same, t_ordered) =
          replay_entry-Same q retention s draft d.recovered es entry commit is_entry grows d.same
            d.recovered_ordered in
        record {
          storable = record {
            version_pos = omega (arith, d.storable.version_pos, commit.version);
            version_safe = omega (arith, d.storable.version_safe, commit.version);
            sequence_safe = safe;
          };
          ordered = ordered;
          checkpoint = d.checkpoint;
          held = d.held;
          checkpoint_storable = d.checkpoint_storable;
          behind = omega (arith, d.behind);
          base = d.base;
          stored = d.stored ++ entry ∷ [];
          file = rw (d.file) (write_line-file_of d.stored entry);
          chained = Chain-append d.base d.stored entry d.chained (sym d.ends) grows;
          sound =
              AllSound-append digest d.stored entry d.sound
                (make_entry-IsSound digest s.database_id s.sequence draft.sequence es checked);
          ends = chain_end-append d.base d.stored entry;
          recovered = t;
          replayed =
              rw (list_after-append d.checkpoint.sequence d.stored entry (omega (arith, d.behind)))
                (replay_wal-append retention d.checkpoint d.recovered t
                  (list_after d.checkpoint.sequence d.stored) entry d.replayed run);
          same = same;
          recovered_ordered = t_ordered;
          memory_base = d.memory_base;
          memory_chained =
              Chain-append d.memory_base wal.entries entry d.memory_chained (sym d.memory_ends)
                grows;
          memory_ends = chain_end-append d.memory_base wal.entries entry;
        }

  -- The states that memory passes through in a commit, by what became of the log line.
  module _ (io : Io) (draft : State) (es : List Event) (db : Database) where
    abbrev pub logged : Database
    logged = record db {
      state = draft;
      wal = record {
        file =
            write_line db.wal.file
              (make_entry digest db.state.database_id db.state.sequence draft.sequence es);
        entries =
            db.wal.entries
            ++ make_entry digest db.state.database_id db.state.sequence draft.sequence es ∷ [];
      };
      commits_since_checkpoint = db.commits_since_checkpoint + 1;
    }

    pub commit_draft-refused :
        (e : Error)
        → check_append db.state.database_id db.state.sequence draft.sequence es ≡ err e
        → commit_draft digest io draft es db ≡ (err e, db)
    unfolding commit_draft
    commit_draft-refused e refused = ap (after_append io draft db) (
        append-refused digest io.line db.state.database_id db.state.sequence draft.sequence es
          db.wal e refused)

    pub commit_draft-unwritten :
        io.line ≡ unwritten
        → check_append db.state.database_id db.state.sequence draft.sequence es ≡ ok tt
        → commit_draft digest io draft es db ≡ (err io_failed, db)
    unfolding commit_draft
    commit_draft-unwritten line checked = ap (after_append io draft db) (
        append-unwritten digest io.line db.state.database_id db.state.sequence draft.sequence es
          db.wal line checked)

    pub commit_draft-synced :
        io.line ≡ synced
        → check_append db.state.database_id db.state.sequence draft.sequence es ≡ ok tt
        → commit_draft digest io draft es db ≡ (
          ok tt,
          if leb db.checkpoint_every logged.commits_since_checkpoint
              then try_checkpoint io logged
              else logged,
        )
    unfolding commit_draft
    commit_draft-synced line checked = ap (after_append io draft db) (
        append-synced digest io.line db.state.database_id db.state.sequence draft.sequence es db.wal
          line checked)

    -- A log line that is synced or not written at all keeps a durable database durable.
    pub commit_draft-Durable :
        (io.line ≡ synced) ⊎ (io.line ≡ unwritten)
        → Durable q digest db
        → Extends q db.change_retention db.state es draft
        → IsOrdered draft
        → Durable q digest (commit_draft digest io draft es db).1
    commit_draft-Durable line d commit ordered =
        elim (Result-cases
          (check_append db.state.database_id db.state.sequence draft.sequence es)) [
            | inr (e, refused) ↦ rw (commit_draft-refused e refused) d
            | inl (_, checked) ↦ elim line [
              | inr failed ↦ rw (commit_draft-unwritten failed checked) d
              | inl done ↦ rw (commit_draft-synced done checked) (
                  maybe_checkpoint (leb db.checkpoint_every logged.commits_since_checkpoint) (
                    appended db.change_retention db.state draft db.wal db.primary es d commit
                      ordered checked))
            ]
          ]
      where
        maybe_checkpoint :
            (b : Bool)
            → Durable q digest logged
            → Durable q digest (if b then try_checkpoint io logged else logged)
        maybe_checkpoint true h = try_checkpoint-Durable q digest io logged h
        maybe_checkpoint false h = h

  pub publish-fields :
      (es : List Event) (db : Database)
      → ((publish es db).state ≡ db.state)
        × ((publish es db).wal ≡ db.wal)
        × ((publish es db).primary ≡ db.primary)
        × ((publish es db).change_retention ≡ db.change_retention)
  unfolding publish
  publish-fields [] db = (refl, refl, refl, refl)
  publish-fields (e ∷ es) db = publish-fields es (record db {
    listeners = map (notify_listener e) db.listeners;
    change_listeners = map (notify e) db.change_listeners;
  })

  pub publish-Durable :
      (es : List Event) (db : Database) → Durable q digest db → Durable q digest (publish es db)
  publish-Durable es db d =
      let fields = publish-fields es db in rw (fields.0, fields.1, fields.2, fields.3) d

  after_commit-Durable :
      (es : List Event) (r : Result (Unit {0}) × Database)
      → Durable q digest r.1
      → Durable q digest (after_commit es r).1
  unfolding after_commit
  after_commit-Durable es (err e, db) d = d
  after_commit-Durable es (ok _, db) d = publish-Durable es db d

  -- A commit keeps a durable database durable, whatever the checkpoint and the compaction do, if the
  -- line of the log is synced or not written at all.
  pub commit_events-Durable :
      (io : Io) (draft : State) (es : List Event) (db : Database)
      → (io.line ≡ synced) ⊎ (io.line ≡ unwritten)
      → Durable q digest db
      → Extends q db.change_retention db.state es draft
      → IsOrdered draft
      → Durable q digest (commit_events digest io draft es db).1
  unfolding commit_events
  commit_events-Durable io draft [] db line d commit ordered = d
  commit_events-Durable io draft (e ∷ es) db line d commit ordered =
      after_commit-Durable (e ∷ es) (commit_draft digest io draft (e ∷ es) db)
        (commit_draft-Durable io draft (e ∷ es) db line d commit ordered)
