-- ===== src/Database.antt =====
-- src/index.js: the embedded database. `State` has its types and what a file may hold, `Events` the
-- change history, `Replay` recovery, `Commit` the durable commit and the checkpoint, `Collection` the
-- writes of one record, `Transaction` drafts and their difference, `Replication` foreign changes, and
-- `Feed` the change feed. The theorems are in the modules below and beside these.
pub mod State
pub mod Events
pub mod History
pub mod Replay
pub mod Same
pub mod Effects
pub mod Appended
pub mod Recovery
pub mod Decided
pub mod Durability
pub mod Transaction
pub mod Kept
pub mod Feed
pub mod Replication
pub mod Writes
pub mod Replace
pub mod Run
pub mod Samples
pub mod Examples
pub mod Commit
pub mod Collection
