-- ===== src/Change.antt =====
-- The events that the database commits, logs, replays and publishes (src/index.js, the objects that
-- appendChange builds and that a replication change carries). An absent field is `none`, or
-- `undefined` where it holds a value. Fields that no code of index.js or wal.js reads are left out,
-- and so is `provenance`, which wal.js normalises.
use syncio.Base.{ℕ, String, Option}
use syncio.Json.{Value}

-- What a caller asks to append: a local write, or a change that another database made.
pub record Change : Type 0 where
  pub collection : String
  pub type : String
  pub id : Value
  pub body : Value
  pub change_id : Option String
  pub origin : Option String
  pub source_sequence : Option ℕ
  pub sequence : Option ℕ
  pub at : Option String
  pub source : Option String
  pub received_at : Option String

-- A committed event. The field `body` is the source's `record`.
pub record Event : Type 0 where
  pub collection : String
  pub type : String
  pub id : Value
  pub body : Value
  pub change_id : String
  pub origin : String
  pub source_sequence : Option ℕ
  pub sequence : ℕ
  pub at : String
  pub source : Option String
  pub received_at : Option String
