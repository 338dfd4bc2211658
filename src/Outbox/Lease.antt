-- ===== src/Outbox/Lease.antt =====
-- Exclusive leases of outbox.go: AcquireTopic, ReleaseTopic and the writes behind them. A lease
-- watcher is seen here by whether it runs.
pub mod Row
pub mod Granted
pub mod Exclusion
pub mod Lapse
pub mod Release
pub mod Faults
pub mod Acquire
pub mod Heartbeat
pub mod Stopped
use mathlib.Core.List.{filter}
use pgoutbox.Prelude.{
  ℕ, ◌+◌, ◌-◌, String, Bool, true, false, not, ◌&&◌, Option, none, some, List, [], ◌∷◌, elem, ltb,
  ◌==◌, number_test, text_test, pos_part, if◌then◌else◌,
}
use pgoutbox.Sql.{select}
use pgoutbox.Db.{Db, ConsumerSession, second}
use pgoutbox.Db.Topics.{
  GetTopicForUpdateRow, get_topic_for_update, insert_topic_if_absent, set_topic_exclusive_consumer,
  renew_topic_exclusive_consumer,
}
use pgoutbox.Db.Sessions.{upsert_consumer_session}
use pgoutbox.World.{
  World, Env, Result, ok, err, Error, M, pure, raise, gets, ◌>>=◌, ◌>>◌, catch, logged, begin,
  commit, tx_exec, tx_query, pool_exec, empty_topic, database, other, context_ended,
}
use pgoutbox.Outbox.{Outbox}
use pgoutbox.Outbox.Access.{is_live}

-- The row of upsertConsumerSessionIn.
unfoldable pub own_session : Outbox → World → ConsumerSession
own_session o w = record {
  consumer_id = o.instance_id;
  expires_at = w.now + w.exclusive_lease_duration;
  maintains_default_expiration = ltb 0 (pos_part o.default_expiration);
}

-- upsertConsumerSession
unfoldable pub upsert_own_session : Outbox → M (Unit {0})
unfolding own_session pool_exec
upsert_own_session o = do
  session ← gets (own_session o)
  pool_exec (upsert_consumer_session session)

-- `row.ExclusiveConsumerID != nil && !holderIsUs && leaseValid`
unfoldable pub held_by_other : ℕ → ℕ → GetTopicForUpdateRow → Bool
held_by_other me now row = elim row.exclusive_consumer_id [
  | none ↦ false
  | some holder ↦ not (holder == me) && is_live now row.exclusive_consumer_expires_at
]

-- The last part of tryAcquireTopicLease: refresh the session and take the lease, with no expiry of
-- its own.
unfoldable pub take_lease : Outbox → String → M Bool
unfolding own_session tx_exec commit
take_lease o topic = do
  session ← gets (own_session o)
  tx_exec (upsert_consumer_session session)
  tx_exec (set_topic_exclusive_consumer topic (some o.instance_id) none)
  commit
  pure true

unfoldable pub claim_row : Outbox → String → ℕ → Option GetTopicForUpdateRow → M Bool
unfolding take_lease held_by_other
claim_row o topic now none = raise (database other)
claim_row o topic now (some row) =
    if held_by_other o.instance_id now row then pure false else take_lease o topic

-- tryAcquireTopicLease
unfoldable pub try_acquire_topic_lease : Outbox → String → M Bool
unfolding claim_row begin tx_exec tx_query
try_acquire_topic_lease o topic = do
  begin
  db_now ← gets (λ w. w.db_now)
  tx_exec (insert_topic_if_absent db_now topic none)
  row ← tx_query (get_topic_for_update topic)
  now ← gets (λ w. w.now)
  claim_row o topic now row

-- expireExclusiveLeaseAfterGrace
unfoldable pub expire_exclusive_lease_after_grace : Outbox → String → M (Unit {0})
unfolding pool_exec
expire_exclusive_lease_after_grace o topic = do
  now ← gets (λ w. w.now)
  duration ← gets (λ w. w.exclusive_lease_duration)
  logged (pool_exec (renew_topic_exclusive_consumer topic o.instance_id (some (now + duration))))

-- expireLeaseIfWatcherOrphaned
unfoldable pub expire_lease_if_watcher_orphaned : Outbox → String → Bool → M (Unit {0})
unfolding expire_exclusive_lease_after_grace
expire_lease_if_watcher_orphaned o topic had_watcher =
    if had_watcher then expire_exclusive_lease_after_grace o topic else pure tt

abbrev without : String → List String → List String
without topic = select (λ t. not (t == topic))

-- exclusiveLeaseWatcher.Stop: whether a watcher was stopped.
unfoldable pub stop_watcher : String → M Bool
stop_watcher topic w =
    (ok (elem topic w.watchers), record w { watchers = without topic w.watchers })

-- exclusiveLeaseWatcher.Start
unfoldable pub start_watcher : String → M (Unit {0})
start_watcher topic w = (ok tt, record w { watchers = topic ∷ without topic w.watchers })

-- What a waiting AcquireTopic wakes up to: later clocks, and what others have committed.
pub record Wake : Type 0 where
  pub env : Env
  pub db : Db

abbrev pub wake_up : Wake → World → World
wake_up k w = record w { env = k.env; db = k.db }

abbrev give_up : {A : Type 0} → Outbox → String → Bool → Error → M A
give_up o topic stopped e = do expire_lease_if_watcher_orphaned o topic stopped; raise e

-- The loop of AcquireTopic: it retries at each of `wakes`, after which its context ends.
unfoldable pub acquire_loop : Outbox → String → Bool → List Wake → M (Unit {0})
unfolding start_watcher expire_lease_if_watcher_orphaned
acquire_loop o topic stopped [] = do
  acquired ← catch (try_acquire_topic_lease o topic) (give_up o topic stopped)
  if acquired then start_watcher topic else give_up o topic stopped context_ended
acquire_loop o topic stopped (k ∷ wakes) =
    let again = acquire_loop o topic stopped wakes in
    do
      acquired ← catch (try_acquire_topic_lease o topic) (give_up o topic stopped)
      if acquired then start_watcher topic else (λ w. again (wake_up k w))

-- AcquireTopic
unfoldable pub acquire_topic : Outbox → String → List Wake → M (Unit {0})
unfolding stop_watcher acquire_loop
acquire_topic o topic wakes =
    if topic == ""
    then raise empty_topic
    else do stopped ← stop_watcher topic; acquire_loop o topic stopped wakes

-- ReleaseTopic
unfoldable pub release_topic : Outbox → String → M (Unit {0})
unfolding stop_watcher pool_exec expire_lease_if_watcher_orphaned
release_topic o topic = if topic == "" then raise empty_topic else do
  stopped ← stop_watcher topic
  now ← gets (λ w. w.now)
  catch (pool_exec (renew_topic_exclusive_consumer topic o.instance_id (some (now - second))))
      (give_up o topic stopped)
