-- ===== src/Db/IsWellFormed.antt =====
-- The constraints of sqlc/schema.sql, and that the statements on other tables than `messages` keep
-- them.
pub mod Inserted
use mathlib.Core.List.{mem-append_left, map-append}
use pgoutbox.Prelude.{
  ℕ, ◌<◌, ◌≡◌, refl, sym, ap, String, Bool, ◌&&◌, Option, none, some, inl, inr, List, [], ◌∷◌, ◌++◌,
  map, Mem, Option-cases, ◌==◌, text_test, number_test, ℤ,
}
use pgoutbox.Sql.{select, update_where, query_row}
use pgoutbox.Sql.Keys.{
  UniqueKeys, UniqueKeys-select, UniqueKeys-append_row, map-update_where, mem_of_mem-select,
}
use pgoutbox.Db.{Db, Message, Topic, ConsumerSession, MaintenanceLease}
use pgoutbox.Db.Messages.{delete_messages_by_ids, delete_expired_messages}
use pgoutbox.Db.Topics.{
  find_topic, update_topic, insert_topic_if_absent, set_topic_exclusive_consumer,
  renew_topic_exclusive_consumer, bump_topic_activity_if_stale,
}
use pgoutbox.Db.Sessions.{
  find_session, refreshed, upsert_consumer_session, delete_expired_consumer_sessions,
}

abbrev pub topic_names : List Topic → List String
topic_names = map (λ (t : Topic). t.topic)

-- The primary keys, the identity sequence ahead of the stored ids, and the insert trigger's work: a
-- row of `topics` for each stored message.
pub record IsWellFormed (db : Db) : Type 0 where
  pub message_ids : UniqueKeys (λ (m : Message). m.id) db.messages
  pub ids_below : (m : Message) → Mem m db.messages → m.id < db.next_id
  pub topic_keys : UniqueKeys (λ (t : Topic). t.topic) db.topics
  pub session_keys : UniqueKeys (λ (s : ConsumerSession). s.consumer_id) db.consumer_sessions
  pub lease_keys : UniqueKeys (λ (l : MaintenanceLease). l.topic) db.maintenance_leases
  pub registered : (m : Message) → Mem m db.messages → Mem m.topic (topic_names db.topics)

module _ {db : Db} (v : IsWellFormed db) where
  -- Fewer messages.
  pub select_messages-IsWellFormed :
      (p : Message → Bool) → IsWellFormed (record db { messages = select p db.messages })
  select_messages-IsWellFormed p = record {
    message_ids = UniqueKeys-select _ p db.messages v.message_ids;
    ids_below = λ m h. v.ids_below m (mem_of_mem-select p db.messages h);
    topic_keys = v.topic_keys;
    session_keys = v.session_keys;
    lease_keys = v.lease_keys;
    registered = λ m h. v.registered m (mem_of_mem-select p db.messages h);
  }

  -- The same topics, with other data.
  pub update_topics-IsWellFormed :
      (p : Topic → Bool) (f : Topic → Topic)
      → ((t : Topic) → (f t).topic ≡ t.topic)
      → IsWellFormed (record db { topics = update_where p f db.topics })
  update_topics-IsWellFormed p f keeps =
      let same = map-update_where (λ (t : Topic). t.topic) p f db.topics keeps in
      record {
        message_ids = v.message_ids;
        ids_below = v.ids_below;
        topic_keys = rw same v.topic_keys;
        session_keys = v.session_keys;
        lease_keys = v.lease_keys;
        registered = λ m h. rw same (v.registered m h);
      }

  pub delete_messages_by_ids-IsWellFormed :
      (topic : String) (ids : List ℕ) → IsWellFormed (delete_messages_by_ids topic ids db)
  unfolding delete_messages_by_ids
  delete_messages_by_ids-IsWellFormed topic ids = select_messages-IsWellFormed _

  pub delete_expired_messages-IsWellFormed :
      (topic : String) (cutoff : ℕ) → IsWellFormed (delete_expired_messages topic cutoff db)
  unfolding delete_expired_messages
  delete_expired_messages-IsWellFormed topic cutoff = select_messages-IsWellFormed _

  pub bump_topic_activity_if_stale-IsWellFormed :
      (now : ℕ) (topic : String) → IsWellFormed (bump_topic_activity_if_stale now topic db)
  unfolding bump_topic_activity_if_stale
  bump_topic_activity_if_stale-IsWellFormed now topic = update_topics-IsWellFormed _ _ (λ t. refl)

  pub set_topic_exclusive_consumer-IsWellFormed :
      (topic : String) (c t : Option ℕ) → IsWellFormed (set_topic_exclusive_consumer topic c t db)
  unfolding set_topic_exclusive_consumer
  set_topic_exclusive_consumer-IsWellFormed topic c t = update_topics-IsWellFormed _ _ (λ t'. refl)

  pub renew_topic_exclusive_consumer-IsWellFormed :
      (topic : String) (c : ℕ) (t : Option ℕ)
      → IsWellFormed (renew_topic_exclusive_consumer topic c t db)
  unfolding renew_topic_exclusive_consumer
  renew_topic_exclusive_consumer-IsWellFormed topic c t =
      update_topics-IsWellFormed _ _ (λ t'. refl)

  pub insert_topic_if_absent-IsWellFormed :
      (now : ℕ) (topic : String) (d : Option ℤ)
      → IsWellFormed (insert_topic_if_absent now topic d db)
  unfolding insert_topic_if_absent
  insert_topic_if_absent-IsWellFormed now topic d =
      elim (Option-cases (find_topic topic db.topics)) [
        | inl absent ↦
            rw (absent, insert_topic_if_absent)
              (record {
                message_ids = v.message_ids;
                ids_below = v.ids_below;
                topic_keys = UniqueKeys-append_row _ db.topics _ v.topic_keys absent;
                session_keys = v.session_keys;
                lease_keys = v.lease_keys;
                registered = λ m h.
                    rw (map-append (λ (t : Topic). t.topic)) (mem-append_left _ (v.registered m h));
              })
        | inr (t, there) ↦
            rw (there, insert_topic_if_absent) (update_topics-IsWellFormed _ _ (λ t'. refl))
      ]

  pub sessions-IsWellFormed :
      (sessions : List ConsumerSession)
      → UniqueKeys (λ (s : ConsumerSession). s.consumer_id) sessions
      → IsWellFormed (record db { consumer_sessions = sessions })
  sessions-IsWellFormed sessions u = record {
    message_ids = v.message_ids;
    ids_below = v.ids_below;
    topic_keys = v.topic_keys;
    session_keys = u;
    lease_keys = v.lease_keys;
    registered = v.registered;
  }

  pub upsert_consumer_session-IsWellFormed :
      (s : ConsumerSession) → IsWellFormed (upsert_consumer_session s db)
  unfolding upsert_consumer_session
  upsert_consumer_session-IsWellFormed s =
      elim (Option-cases (find_session s.consumer_id db.consumer_sessions)) [
        | inl absent ↦
            rw (absent, upsert_consumer_session)
              (sessions-IsWellFormed _
                (UniqueKeys-append_row _ db.consumer_sessions s v.session_keys absent))
        | inr (t, there) ↦
            rw (there, upsert_consumer_session)
              (sessions-IsWellFormed _ (
                rw
                  (map-update_where (λ (x : ConsumerSession). x.consumer_id)
                    (λ x. x.consumer_id == s.consumer_id) (refreshed s) db.consumer_sessions
                    (λ x. refl))
                  v.session_keys))
      ]
