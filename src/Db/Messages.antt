-- ===== src/Db/Messages.antt =====
-- The statements of sqlc/queries.sql.go and sqlc/copyfrom.go on `messages`.
use mathlib.Core.List.{head?}
use mathlib.Core.Option
use pgoutbox.Prelude.{
  ℕ, suc, String, Bool, not, ◌&&◌, Option, List, [], ◌∷◌, take, elem, ltb, ◌==◌, text_test,
  number_test,
}
use pgoutbox.Sql.{select, delete_where, coalesce_or}
use pgoutbox.Sql.Order.{order_by}
use pgoutbox.Db.{Db, Message}

-- AcquireMessagesByTopic: the messages that another transaction holds locked are skipped.
unfoldable pub acquire_messages_by_topic : (ℕ → Bool) → String → Option ℕ → Db → List Message
acquire_messages_by_topic locked topic limit db = take (coalesce_or limit 100) (
    select (λ m. not (locked m.id))
      (order_by (λ m. m.id) (select (λ m. m.topic == topic) db.messages)))

-- DeleteMessagesByIds
unfoldable pub delete_messages_by_ids : String → List ℕ → Db → Db
delete_messages_by_ids topic ids db = record db {
  messages = delete_where (λ m. m.topic == topic && elem m.id ids) db.messages;
}

-- DeleteExpiredMessages
unfoldable pub delete_expired_messages : String → ℕ → Db → Db
delete_expired_messages topic cutoff db = record db {
  messages = delete_where (λ m. m.topic == topic && ltb m.inserted_at cutoff) db.messages;
}

-- GetOldestMessageInsertedAt; `none` is `pgx.ErrNoRows`.
unfoldable pub get_oldest_message_inserted_at : String → Db → Option ℕ
get_oldest_message_inserted_at topic db =
    Option.map (λ (m : Message). m.inserted_at)
      (head? (order_by (λ m. m.inserted_at) (select (λ m. m.topic == topic) db.messages)))

-- One row of InsertMessage, in the form that the copy iterator hands out.
pub record InsertMessageParams : Type 0 where
  pub topic : String
  pub payload : List ℕ

-- The rows that a copy of `params` stores: ids in order from the sequence, one timestamp. The payloads
-- are already in the form of the JSONB column, which `copied_rows` of Outbox/Add gives.
unfoldable pub number_rows : ℕ → ℕ → List InsertMessageParams → List Message
number_rows id now [] = []
number_rows id now (p ∷ ps) =
    record { id = id; inserted_at = now; topic = p.topic; payload = p.payload }
    ∷ number_rows (suc id) now ps
