-- ===== src/Db.antt =====
-- The outbox's tables: sqlc/models.go, with the key and default clauses of sqlc/schema.sql.
-- Instants are nanoseconds from an origin before all of them, kept exactly: that TIMESTAMPTZ rounds what
-- it stores to microseconds is not modelled. A uuid is a number.
pub mod Messages
pub mod Listing
pub mod Topics
pub mod Sessions
pub mod Leases
pub mod IsWellFormed
use pgoutbox.Prelude.{ℕ, ◌*◌, ◌^◌, String, Bool, Option, List, ℤ, pos}

-- The rows of other tables of the same database, which a flusher may write through its transaction.
abbrev pub AppRow : Type 0
AppRow = List ℕ

-- `payload` is the JSONB column, as the bytes that Postgres returns for it.
pub record Message : Type 0 where
  pub id : ℕ
  pub inserted_at : ℕ
  pub topic : String
  pub payload : List ℕ

pub record Topic : Type 0 where
  pub topic : String
  pub expiration_nanos : Option ℤ
  pub exclusive_consumer_id : Option ℕ
  pub exclusive_consumer_expires_at : Option ℕ
  pub last_inserted_at : Option ℕ

pub record ConsumerSession : Type 0 where
  pub consumer_id : ℕ
  pub expires_at : ℕ
  pub maintains_default_expiration : Bool

pub record MaintenanceLease : Type 0 where
  pub topic : String
  pub holder_id : ℕ
  pub acquired_at : ℕ

-- `next_id` is the identity sequence of `messages.id`; `notifications` are the calls of pg_notify, by
-- topic, which a transaction sends when it commits.
pub record Db : Type 0 where
  pub messages : List Message
  pub next_id : ℕ
  pub topics : List Topic
  pub consumer_sessions : List ConsumerSession
  pub maintenance_leases : List MaintenanceLease
  pub notifications : List String
  pub app : List AppRow

abbrev pub second : ℕ
second = 10 ^ 9
