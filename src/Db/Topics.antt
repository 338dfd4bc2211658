-- ===== src/Db/Topics.antt =====
-- The statements of sqlc/queries.sql.go on `topics`, and the insert trigger of sqlc/schema.sql.
use pgoutbox.Prelude.{
  ℕ, ◌-◌, ◌*◌, ◌+◌, String, Bool, false, not, ◌&&◌, ◌||◌, Option, none, some, List, [], ◌∷◌, ◌++◌,
  map, elem, length, ltb, ◌==◌, text_test, number_test, if◌then◌else◌, ℤ,
}
use pgoutbox.Sql.{update_where, query_row, coalesce, null_or}
use pgoutbox.Db.{Db, Topic, ConsumerSession, second}
use pgoutbox.Db.Messages.{InsertMessageParams, number_rows}

-- GetTopicForUpdateRow
pub record GetTopicForUpdateRow : Type 0 where
  pub exclusive_consumer_id : Option ℕ
  pub exclusive_consumer_expires_at : Option ℕ

-- The `expires_at` that LEFT JOIN consumer_sessions gives for a holder.
unfoldable pub session_expires_at : List ConsumerSession → Option ℕ → Option ℕ
session_expires_at sessions none = none
session_expires_at sessions (some holder) =
    elim (query_row (λ s. s.consumer_id == holder) sessions) [
      | none ↦ none
      | some s ↦ some s.expires_at
    ]

unfoldable pub joined_row : List ConsumerSession → Topic → GetTopicForUpdateRow
unfolding session_expires_at
joined_row sessions t = record {
  exclusive_consumer_id = t.exclusive_consumer_id;
  exclusive_consumer_expires_at =
      coalesce t.exclusive_consumer_expires_at
        (session_expires_at sessions t.exclusive_consumer_id);
}

abbrev pub find_topic : String → List Topic → Option Topic
find_topic topic = query_row (λ t. t.topic == topic)

-- GetTopicForUpdate; `none` is `pgx.ErrNoRows`.
unfoldable pub get_topic_for_update : String → Db → Option GetTopicForUpdateRow
get_topic_for_update topic db = elim (find_topic topic db.topics) [
  | none ↦ none
  | some t ↦ some (joined_row db.consumer_sessions t)
]

abbrev pub update_topic : String → (Topic → Topic) → Db → Db
update_topic topic f db = record db { topics = update_where (λ t. t.topic == topic) f db.topics }

abbrev pub new_topic : String → Option ℤ → ℕ → Topic
new_topic topic expiration now = record {
  topic = topic;
  expiration_nanos = expiration;
  exclusive_consumer_id = none;
  exclusive_consumer_expires_at = none;
  last_inserted_at = some now;
}

-- InsertTopicIfAbsent: the conflict arm fills in an expiration that is still NULL.
unfoldable pub insert_topic_if_absent : ℕ → String → Option ℤ → Db → Db
insert_topic_if_absent now topic expiration db = elim (find_topic topic db.topics) [
  | none ↦ record db { topics = db.topics ++ new_topic topic expiration now ∷ [] }
  | some _ ↦
      update_topic topic
        (λ t. record t { expiration_nanos = coalesce t.expiration_nanos expiration }) db
]

-- SetTopicExclusiveConsumer
unfoldable pub set_topic_exclusive_consumer : String → Option ℕ → Option ℕ → Db → Db
set_topic_exclusive_consumer topic consumer expires =
    update_topic topic
      λ t. record t { exclusive_consumer_id = consumer; exclusive_consumer_expires_at = expires }

abbrev pub is_holder : ℕ → Option ℕ → Bool
is_holder consumer none = false
is_holder consumer (some c) = c == consumer

-- RenewTopicExclusiveConsumer: `exclusive_consumer_id = $2` holds of no row where it is NULL.
unfoldable pub renew_topic_exclusive_consumer : String → ℕ → Option ℕ → Db → Db
renew_topic_exclusive_consumer topic consumer expires db = record db {
  topics =
      update_where (λ t. t.topic == topic && is_holder consumer t.exclusive_consumer_id)
        (λ t. record t { exclusive_consumer_expires_at = expires }) db.topics;
}

-- `last_inserted_at IS NULL OR last_inserted_at < now() - interval '30 seconds'`
unfoldable pub is_stale : ℕ → Topic → Bool
is_stale now t = null_or (λ last. ltb last (now - 30 * second)) t.last_inserted_at

abbrev stamp : ℕ → Topic → Topic
stamp now t = record t { last_inserted_at = some now }

-- BumpTopicActivityIfStale
unfoldable pub bump_topic_activity_if_stale : ℕ → String → Db → Db
unfolding is_stale
bump_topic_activity_if_stale now topic db = record db {
  topics = update_where (λ t. t.topic == topic && is_stale now t) (stamp now) db.topics;
}

-- The distinct topics of the inserted rows that have no row in `topics` yet.
unfoldable pub new_topics : List Topic → List String → List String
new_topics known [] = []
new_topics known (n ∷ ns) =
    let rest = new_topics known ns in
    if elem n (map (λ (t : Topic). t.topic) known) || elem n rest then rest else n ∷ rest

-- topics_insert_trigger_fn: bump the batch's topics that are stale and not locked by another
-- transaction, then register those that are new.
unfoldable pub topics_insert_trigger_fn : (String → Bool) → ℕ → List String → Db → Db
unfolding is_stale new_topics
topics_insert_trigger_fn locked now inserted db = record db {
  topics =
      update_where (λ t. elem t.topic inserted && is_stale now t && not (locked t.topic))
        (stamp now) db.topics
      ++ map (λ n. new_topic n none now) (new_topics db.topics inserted);
}

-- InsertMessage on rows that Postgres accepts, their payloads in the form of the JSONB column: the copy,
-- then the statement's trigger.
unfoldable pub insert_message : (String → Bool) → ℕ → List InsertMessageParams → Db → Db
unfolding number_rows topics_insert_trigger_fn
insert_message locked now params db =
    topics_insert_trigger_fn locked now (map (λ (p : InsertMessageParams). p.topic) params)
      (record db {
        messages = db.messages ++ number_rows db.next_id now params;
        next_id = db.next_id + length params;
      })
