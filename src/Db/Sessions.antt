-- ===== src/Db/Sessions.antt =====
-- The statements of sqlc/queries.sql.go on `consumer_sessions`.
use pgoutbox.Prelude.{
  ℕ, ◌&&◌, none, some, Option, List, [], ◌∷◌, ◌++◌, length, ltb, ◌==◌, number_test,
}
use pgoutbox.Sql.{select, delete_where, update_where, query_row}
use pgoutbox.Db.{Db, ConsumerSession}

abbrev pub find_session : ℕ → List ConsumerSession → Option ConsumerSession
find_session consumer = query_row (λ s. s.consumer_id == consumer)

-- The SET clause of the conflict arm.
abbrev pub refreshed : ConsumerSession → ConsumerSession → ConsumerSession
refreshed new s = record s {
  expires_at = new.expires_at;
  maintains_default_expiration = new.maintains_default_expiration;
}

-- UpsertConsumerSession
unfoldable pub upsert_consumer_session : ConsumerSession → Db → Db
upsert_consumer_session new db = elim (find_session new.consumer_id db.consumer_sessions) [
  | none ↦ record db { consumer_sessions = db.consumer_sessions ++ new ∷ [] }
  | some _ ↦ record db {
    consumer_sessions =
        update_where (λ s. s.consumer_id == new.consumer_id) (refreshed new) db.consumer_sessions;
  }
]

-- CountLiveConsumerSessionsRow
pub record CountLiveConsumerSessionsRow : Type 0 where
  pub live : ℕ
  pub default_maintainers : ℕ

-- CountLiveConsumerSessions
unfoldable pub count_live_consumer_sessions : ℕ → Db → CountLiveConsumerSessionsRow
count_live_consumer_sessions now db = record {
  live = length (select (λ s. ltb now s.expires_at) db.consumer_sessions);
  default_maintainers =
      length
        (select (λ s. ltb now s.expires_at && s.maintains_default_expiration) db.consumer_sessions);
}

-- DeleteExpiredConsumerSessions
unfoldable pub delete_expired_consumer_sessions : ℕ → Db → Db
delete_expired_consumer_sessions cutoff db = record db {
  consumer_sessions = delete_where (λ s. ltb s.expires_at cutoff) db.consumer_sessions;
}
