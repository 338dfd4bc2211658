-- ===== src/Outbox/Lease/Row.antt =====
-- The topic row that the statements of tryAcquireTopicLease leave.
use mathlib.Core.Option
use pgoutbox.Prelude.{
  ℕ, String, ◌≡◌, ◌⊎◌, inl, inr, refl, ◌∙◌, ap, Option, none, some, Option-cases, ◌==◌, ==_refl,
  number_test, text_test, ℤ,
}
use pgoutbox.Sql.{coalesce}
use pgoutbox.Sql.Keys.{query_row-update_self, query_row-append_row}
use pgoutbox.Db.{Db, Topic, ConsumerSession}
use pgoutbox.Db.Topics.{
  GetTopicForUpdateRow, session_expires_at, joined_row, find_topic, get_topic_for_update,
  insert_topic_if_absent, set_topic_exclusive_consumer, new_topic,
}
use pgoutbox.Db.Sessions.{find_session, refreshed, upsert_consumer_session}

find_session-upsert :
    (s : ConsumerSession) (db : Db)
    → Option.map
        (λ (x : ConsumerSession). x.expires_at)
        (find_session s.consumer_id (upsert_consumer_session s db).consumer_sessions)
      ≡ some s.expires_at
unfolding upsert_consumer_session
find_session-upsert s db = elim (Option-cases (find_session s.consumer_id db.consumer_sessions)) [
  | inl absent ↦
      rw (absent, upsert_consumer_session)
        (rw (query_row-append_row _ db.consumer_sessions s absent (==_refl s.consumer_id)))
  | inr (t, there) ↦
      rw (there, upsert_consumer_session)
        (rw (
          query_row-update_self (λ (x : ConsumerSession). x.consumer_id == s.consumer_id)
              (refreshed s) db.consumer_sessions (λ r e. e),
          there,
        ))
]

pub topics-upsert :
    (s : ConsumerSession) (db : Db) → (upsert_consumer_session s db).topics ≡ db.topics
unfolding upsert_consumer_session
topics-upsert s db = elim (Option-cases (find_session s.consumer_id db.consumer_sessions)) [
  | inl absent ↦ rw (absent, upsert_consumer_session)
  | inr (t, there) ↦ rw (there, upsert_consumer_session)
]

-- The row of a lease that defers to a session.
abbrev pub lease_row : ℕ → ℕ → GetTopicForUpdateRow
lease_row holder expires = record {
  exclusive_consumer_id = some holder;
  exclusive_consumer_expires_at = some expires;
}

abbrev lease_row_of : ℕ → Option ℕ → GetTopicForUpdateRow
lease_row_of holder expires = record {
  exclusive_consumer_id = some holder;
  exclusive_consumer_expires_at = expires;
}

abbrev pub leased : ℕ → Topic → Topic
leased holder t = record t {
  exclusive_consumer_id = some holder;
  exclusive_consumer_expires_at = none;
}

pub joined_row-leased :
    (s : ConsumerSession) (db : Db) (t : Topic)
    → joined_row (upsert_consumer_session s db).consumer_sessions (leased s.consumer_id t)
      ≡ lease_row s.consumer_id s.expires_at
unfolding joined_row session_expires_at
joined_row-leased s db t =
    by_session (find_session s.consumer_id (upsert_consumer_session s db).consumer_sessions) refl
      (find_session-upsert s db)
  where
    by_session :
        (found : Option ConsumerSession)
        → find_session s.consumer_id (upsert_consumer_session s db).consumer_sessions ≡ found
        → Option.map (λ (x : ConsumerSession). x.expires_at) found ≡ some s.expires_at
        → joined_row (upsert_consumer_session s db).consumer_sessions (leased s.consumer_id t)
          ≡ lease_row s.consumer_id s.expires_at
    by_session none e h = cc
    by_session (some x) e h = rw (e, session_expires_at) (ap (lease_row_of s.consumer_id) h)

-- The row that tryAcquireTopicLease leaves.
pub granted_row :
    (s : ConsumerSession) (topic : String) (db : Db) (t : Topic)
    → find_topic topic db.topics ≡ some t
    → get_topic_for_update topic (
        set_topic_exclusive_consumer topic (some s.consumer_id) none (upsert_consumer_session s db))
      ≡ some (lease_row s.consumer_id s.expires_at)
unfolding get_topic_for_update set_topic_exclusive_consumer
granted_row s topic db t there =
    let found : find_topic topic
          (set_topic_exclusive_consumer topic (some s.consumer_id) none
            (upsert_consumer_session s db)).topics
        ≡ some (leased s.consumer_id t) =
      query_row-update_self (λ (x : Topic). x.topic == topic) (leased s.consumer_id) _ (λ r e. e)
      ∙ ap (Option.map (leased s.consumer_id))
          (ap (find_topic topic) (topics-upsert s db) ∙ there) in
    rw (found, get_topic_for_update) (ap some (joined_row-leased s db t))

-- The row of a topic after InsertTopicIfAbsent: a new one, or the old one up to its expiration.
pub find_topic-insert :
    (now : ℕ) (topic : String) (db : Db)
    → ((find_topic topic db.topics ≡ none)
        × (find_topic topic (insert_topic_if_absent now topic none db).topics
            ≡ some (new_topic topic none now)))
      ⊎ ((t : Topic) × (d : Option ℤ) × (find_topic topic db.topics ≡ some t)
          × (find_topic topic (insert_topic_if_absent now topic none db).topics
              ≡ some (record t { expiration_nanos = d })))
unfolding insert_topic_if_absent
find_topic-insert now topic db = elim (Option-cases (find_topic topic db.topics)) [
  | inl absent ↦ inl (
    absent,
    rw (absent, insert_topic_if_absent)
        (query_row-append_row (λ (x : Topic). x.topic == topic) db.topics (new_topic topic none now)
          absent (==_refl topic)),
  )
  | inr (t, there) ↦ inr (
    t,
    coalesce t.expiration_nanos none,
    there,
    rw (there, insert_topic_if_absent)
        (query_row-update_self (λ (x : Topic). x.topic == topic)
            (λ x. record x { expiration_nanos = coalesce x.expiration_nanos none }) db.topics
            (λ r e. e)
          ∙ ap
              (Option.map
                (λ (x : Topic). record x { expiration_nanos = coalesce x.expiration_nanos none }))
              there),
  )
]

pub sessions-insert :
    (now : ℕ) (topic : String) (db : Db)
    → (insert_topic_if_absent now topic none db).consumer_sessions ≡ db.consumer_sessions
unfolding insert_topic_if_absent
sessions-insert now topic db = elim (Option-cases (find_topic topic db.topics)) [
  | inl absent ↦ rw (absent, insert_topic_if_absent)
  | inr (t, there) ↦ rw (there, insert_topic_if_absent)
]

-- InsertTopicIfAbsent keeps the row that is there.
pub get_topic_for_update-insert :
    (now : ℕ) (topic : String) (db : Db) {row : GetTopicForUpdateRow}
    → get_topic_for_update topic db ≡ some row
    → get_topic_for_update topic (insert_topic_if_absent now topic none db) ≡ some row
unfolding get_topic_for_update joined_row
get_topic_for_update-insert now topic db {row} stored = elim (find_topic-insert now topic db) [
  | inl (absent, new) ↦
      let clash : none ≡ some row = rw (absent, get_topic_for_update) at stored in cc
  | inr (t, d, there, kept) ↦
      rw (kept, get_topic_for_update)
        (rw (sessions-insert now topic db) (rw (there, get_topic_for_update) at stored))
]
