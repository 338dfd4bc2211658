-- ===== src/Subscribe/Backlog.antt =====
-- The messages that a topic has, and what a batch leaves of them.
use mathlib.Core.Option
use pgoutbox.Prelude.{
  ℕ, String, ◌≡◌, refl, ap, ◌∙◌, Bool, false, not, ◌&&◌, Option, none, some, List, [], ◌∷◌, take,
  drop, ◌==◌, number_test, text_test, inl, inr, Bool-cases, if◌then◌else◌,
}
use pgoutbox.Sql.{select, delete_where}
use pgoutbox.Sql.Keys.{UniqueKeys, UniqueKeys-select, query_row-update_where}
use pgoutbox.Sql.Order.{order_by, order_by-select}
use pgoutbox.Sql.Batch.{select-delete, select-delete_other, delete_taken, UniqueKeys-order_by}
use pgoutbox.Db.{Db, Message, AppRow, Topic, ConsumerSession}
use pgoutbox.Db.Messages.{acquire_messages_by_topic, delete_messages_by_ids}
use pgoutbox.Db.Topics.{
  bump_topic_activity_if_stale, get_topic_for_update, joined_row, GetTopicForUpdateRow, is_stale,
}
use pgoutbox.Outbox.Process.Atomic.{after_batch}

-- The messages of the topic, oldest first.
abbrev pub backlog : String → Db → List Message
backlog topic db = order_by (λ m. m.id) (select (λ m. m.topic == topic) db.messages)

all_unlocked :
    (locked : ℕ → Bool) (ms : List Message)
    → ((id : ℕ) → locked id ≡ false)
    → select (λ m. not (locked m.id)) ms ≡ ms
all_unlocked locked [] free = refl
all_unlocked locked (m ∷ ms) free = rw (free m.id) (ap (◌∷◌ m) (all_unlocked locked ms free))

pub acquire-unlocked :
    (locked : ℕ → Bool) (topic : String) (n : ℕ) (db : Db)
    → ((id : ℕ) → locked id ≡ false)
    → acquire_messages_by_topic locked topic (some n) db ≡ take n (backlog topic db)
unfolding acquire_messages_by_topic
acquire-unlocked locked topic n db free = ap (take n) (all_unlocked locked (backlog topic db) free)

module _ (now : ℕ) (topic : String) (n : ℕ) (app : List AppRow) (db : Db) where
  abbrev left : Db
  left = after_batch now topic (take n (backlog topic db)) app db

  pub backlog-after :
      UniqueKeys (λ (m : Message). m.id) db.messages
      → backlog topic left ≡ drop n (backlog topic db)
  unfolding bump_topic_activity_if_stale delete_messages_by_ids
  backlog-after keys =
      ap (order_by (λ (m : Message). m.id))
        (select-delete (λ (m : Message). m.topic == topic) _ db.messages)
      ∙ order_by-select (λ (m : Message). m.id) _ _
      ∙ delete_taken (λ (m : Message). m.id) n (backlog topic db)
          (UniqueKeys-order_by _ _ _ (UniqueKeys-select _ _ _ keys))

  pub others-after :
      delete_where (λ m. m.topic == topic) left.messages
      ≡ delete_where (λ m. m.topic == topic) db.messages
  unfolding bump_topic_activity_if_stale delete_messages_by_ids
  others-after = select-delete_other (λ (m : Message). m.topic == topic) _ db.messages

  pub keys-after :
      UniqueKeys (λ (m : Message). m.id) db.messages
      → UniqueKeys (λ (m : Message). m.id) left.messages
  unfolding bump_topic_activity_if_stale delete_messages_by_ids
  keys-after keys = UniqueKeys-select (λ (m : Message). m.id) _ _ keys

row_of : List ConsumerSession → Option Topic → Option GetTopicForUpdateRow
row_of sessions row = elim row [ none ↦ none | some t ↦ some (joined_row sessions t) ]

row_of-stamped :
    (sessions : List ConsumerSession) (now : ℕ) (stale : Topic → Bool) (row : Option Topic)
    → row_of sessions
        (Option.map (λ t. if stale t then record t { last_inserted_at = some now } else t) row)
      ≡ row_of sessions row
unfolding row_of joined_row
row_of-stamped sessions now stale none = refl
row_of-stamped sessions now stale (some t) = elim (Bool-cases (stale t)) [
  | inl h ↦ rw h refl
  | inr h ↦ rw h refl
]

-- The activity bump does not touch what the access check reads.
pub get_topic_for_update-after :
    (now : ℕ) (topic : String) (msgs : List Message) (app : List AppRow) (db : Db)
    → get_topic_for_update topic (after_batch now topic msgs app db) ≡ get_topic_for_update topic db
unfolding bump_topic_activity_if_stale delete_messages_by_ids get_topic_for_update joined_row row_of
get_topic_for_update-after now topic msgs app db =
    let stale = λ (t : Topic). t.topic == topic && is_stale now t in
    ap (row_of db.consumer_sessions) (
      query_row-update_where (λ (t : Topic). t.topic == topic) stale
        (λ t. record t { last_inserted_at = some now }) db.topics (λ r. refl))
    ∙ row_of-stamped db.consumer_sessions now stale _
