-- ===== src/Outbox/Invariant.antt =====
-- The operations of outbox.go keep the constraints of the schema.
use pgoutbox.Prelude.{
  ◌≡◌, ◌+◌, String, Bool, none, some, Option, List, inl, inr, text_test, true, false,
}
use pgoutbox.Db.{Db, AppRow}
use pgoutbox.Db.IsWellFormed.{
  IsWellFormed, delete_messages_by_ids-IsWellFormed, bump_topic_activity_if_stale-IsWellFormed,
  insert_topic_if_absent-IsWellFormed, set_topic_exclusive_consumer-IsWellFormed,
  upsert_consumer_session-IsWellFormed, renew_topic_exclusive_consumer-IsWellFormed,
}
use pgoutbox.Db.IsWellFormed.Inserted.{insert_message-IsWellFormed}
use pgoutbox.Db.Topics.{
  GetTopicForUpdateRow, get_topic_for_update, insert_topic_if_absent,
  renew_topic_exclusive_consumer,
}
use pgoutbox.World.{World, Result, ok, pure, logged, ◌>>=◌}
use pgoutbox.World.Rules.{
  Gives, begin_rule, tx_exec_rule, tx_query_rule, commit_rule, gets_rule, pure_rule, raise_rule,
  if_rule, catch_pool_exec_rule,
}
use pgoutbox.Outbox.{Outbox, PubSubKind, no_pubsub, pubsub, tx_publisher, Flusher}
use pgoutbox.Outbox.Process.{ProcessOpt, process_messages}
use pgoutbox.Outbox.Process.Atomic.{
  Ends, stopped, idle, undone, done, process_messages-Ends, size_of,
}
use pgoutbox.Outbox.Add.{MessageOpts, Notifier, add_messages}
use pgoutbox.Outbox.Add.Stored.{Adds, failed, nothing, added, add_messages-Adds, notified_db}
use pgoutbox.Outbox.Lease.{
  own_session, take_lease, claim_row, held_by_other, try_acquire_topic_lease, release_topic,
  expire_exclusive_lease_after_grace, expire_lease_if_watcher_orphaned,
}
use pgoutbox.Outbox.Lease.Release.{Releases, no_topic, released, gave_up, release_topic-Releases}

module _ {db : Db} (v : IsWellFormed db) where
  app-IsWellFormed : (app : List AppRow) → IsWellFormed (record db { app = app })
  app-IsWellFormed app = record {
    message_ids = v.message_ids;
    ids_below = v.ids_below;
    topic_keys = v.topic_keys;
    session_keys = v.session_keys;
    lease_keys = v.lease_keys;
    registered = v.registered;
  }

  notified_db-IsWellFormed :
      (k : PubSubKind) (topic : String) → IsWellFormed (notified_db k topic db)
  notified_db-IsWellFormed tx_publisher topic = record {
    message_ids = v.message_ids;
    ids_below = v.ids_below;
    topic_keys = v.topic_keys;
    session_keys = v.session_keys;
    lease_keys = v.lease_keys;
    registered = v.registered;
  }
  notified_db-IsWellFormed pubsub topic = v
  notified_db-IsWellFormed no_pubsub topic = v

-- ProcessMessages keeps the constraints of the schema (the keys, the ids below the sequence and a topic
-- row for each stored message), whatever the flusher and the database answer.
pub process_messages-IsWellFormed :
    (o : Outbox) (opts : List ProcessOpt) (topic : String) (w : World)
    → IsWellFormed w.db
    → IsWellFormed (process_messages o opts topic w).1.db
process_messages-IsWellFormed o opts topic w v =
    let (f, e) = process_messages-Ends o opts topic w in by_end f e.at
  where
    by_end :
        (f : Flusher) {r : Result (List _)} {w' : World}
        → Ends o f (size_of o opts topic w) topic w r w'
        → IsWellFormed w'.db
    by_end f (stopped _ _ d _) = rw d v
    by_end f (idle _ _ _ d _) = rw d v
    by_end f (undone _ _ _ _ _ d _) = rw d v
    by_end f (done app _ _ _ _ d _) = rw d (
        bump_topic_activity_if_stale-IsWellFormed
          (delete_messages_by_ids-IsWellFormed (app-IsWellFormed v app) topic _) w.db_now topic)

-- AddMessages that succeeds keeps the constraints of the schema in the caller's transaction: the new
-- ids are fresh, each new message's topic has a row, and no topic has two.
pub add_messages-IsWellFormed :
    (o : Outbox) (topic : String) (msgs : List MessageOpts) (n n' : Option Notifier) (w : World)
    → IsWellFormed w.work
    → (add_messages o topic msgs n w).0 ≡ ok n'
    → IsWellFormed (add_messages o topic msgs n w).1.work
add_messages-IsWellFormed o topic msgs n n' w v won =
    by_end won (add_messages-Adds o topic msgs n w).at
  where
    by_end :
        {r : Result (Option Notifier)} {w' : World}
        → r ≡ ok n'
        → Adds o.pubsub_kind topic msgs n w r w'
        → IsWellFormed w'.work
    by_end won (failed e bad _) = cc
    by_end won (nothing _ _ same) = rw same v
    by_end won (added _ _ _ _ s) = rw s (
        notified_db-IsWellFormed (insert_message-IsWellFormed w.work v w.locked_topics w.db_now _)
          o.pubsub_kind topic)

module _ (o : Outbox) (topic : String) where
  take_lease-IsWellFormed :
      (w : World)
      → IsWellFormed w.db
      → IsWellFormed w.work
      → Gives (take_lease o topic) w (λ r w'. IsWellFormed w'.db)
  unfolding take_lease
  take_lease-IsWellFormed w v u =
      let done =
        set_topic_exclusive_consumer-IsWellFormed
          (upsert_consumer_session-IsWellFormed u (own_session o w)) topic (some o.instance_id)
          none in
      gets_rule _ _ (
        tx_exec_rule _ _ (λ c. v)
          (tx_exec_rule _ _ (λ c. v) (commit_rule _ (λ c. v) (λ c l. done) (pure_rule true done))))

  claim_row-IsWellFormed :
      (row : Option GetTopicForUpdateRow) (w : World)
      → IsWellFormed w.db
      → IsWellFormed w.work
      → Gives (claim_row o topic w.now row) w (λ r w'. IsWellFormed w'.db)
  unfolding claim_row
  claim_row-IsWellFormed none w v u = raise_rule _ v
  claim_row-IsWellFormed (some row) w v u =
      if_rule (held_by_other o.instance_id w.now row) (λ _. pure_rule false v)
        (λ _. take_lease-IsWellFormed w v u)

  try_acquire-IsWellFormed :
      (w : World)
      → IsWellFormed w.db
      → Gives (try_acquire_topic_lease o topic) w (λ r w'. IsWellFormed w'.db)
  unfolding try_acquire_topic_lease
  try_acquire-IsWellFormed w v =
      begin_rule _ (λ c. v)
        (gets_rule _ _ (
          tx_exec_rule _ _ (λ c. v)
            (tx_query_rule _ _ (λ c. v)
              (gets_rule _ _ (
                claim_row-IsWellFormed
                  (get_topic_for_update topic (insert_topic_if_absent w.db_now topic none w.db)) _ v
                  (insert_topic_if_absent-IsWellFormed v w.db_now topic none))))))

  orphaned-IsWellFormed :
      (stopped : Bool) (w : World)
      → IsWellFormed w.db
      → IsWellFormed (expire_lease_if_watcher_orphaned o topic stopped w).1.db
  unfolding expire_lease_if_watcher_orphaned expire_exclusive_lease_after_grace logged ◌>>=◌ pure
  orphaned-IsWellFormed false w v = v
  orphaned-IsWellFormed true w v =
      let kept =
        renew_topic_exclusive_consumer-IsWellFormed v topic o.instance_id
          (some (w.now + w.exclusive_lease_duration)) in
      (catch_pool_exec_rule {Q = λ r w'. IsWellFormed w'.db} {w = w}
        (renew_topic_exclusive_consumer topic o.instance_id
          (some (w.now + w.exclusive_lease_duration)))
        (λ _. pure tt) kept (λ c. record { at = v }) (λ c. record { at = kept })).at

  -- An attempt on a lease and a release keep the constraints of the schema, on every path and whatever
  -- the database answers.
  pub leases-IsWellFormed :
      (w : World)
      → IsWellFormed w.db
      → IsWellFormed (try_acquire_topic_lease o topic w).1.db
        × IsWellFormed (release_topic o topic w).1.db
  leases-IsWellFormed w v =
      ((try_acquire-IsWellFormed w v).at, by_end (release_topic-Releases o topic w).at)
    where
      by_end : {r : Result (Unit {0})} {w' : World} → Releases o topic w r w' → IsWellFormed w'.db
      by_end (no_topic _ _ _ same) = rw same v
      by_end (released _ d _) =
          rw d (renew_topic_exclusive_consumer-IsWellFormed v topic o.instance_id _)
      by_end (gave_up _ u _ (inl d) same) = rw same (orphaned-IsWellFormed _ u (rw d v))
      by_end (gave_up _ u _ (inr d) same) = rw same (
          orphaned-IsWellFormed _ u
            (rw d (renew_topic_exclusive_consumer-IsWellFormed v topic o.instance_id _)))
