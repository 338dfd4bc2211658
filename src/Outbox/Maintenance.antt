-- ===== src/Outbox/Maintenance.antt =====
-- runMaintenance and finishDormantTopic of outbox.go: the cleanup of expired messages.
pub mod Cleanup
pub mod Holder
pub mod Dormant
pub mod Constraints
use pgoutbox.Prelude.{
  ℕ, ◌-◌, String, Bool, not, ◌&&◌, Option, none, some, ◌==◌, number_test, if◌then◌else◌,
}
use pgoutbox.Db.{Db}
use pgoutbox.Db.Messages.{delete_expired_messages, get_oldest_message_inserted_at}
use pgoutbox.Db.Leases.{
  SelectMaintenanceLeaseForUpdateRow, insert_maintenance_lease_if_absent,
  select_maintenance_lease_for_update, update_maintenance_lease, release_maintenance_lease,
}
use pgoutbox.World.{
  M, pure, raise, gets, ◌>>=◌, ◌>>◌, logged, begin, commit, tx_exec, tx_query, pool_exec,
  pool_query, database, other, lease_held,
}
use pgoutbox.Outbox.{Outbox}

-- `lease.HolderID != o.instanceID && !lease.LeaseExpired`
unfoldable pub is_held_by_other : ℕ → SelectMaintenanceLeaseForUpdateRow → Bool
is_held_by_other me lease = not (lease.holder_id == me) && not lease.lease_expired

-- The part of runMaintenance after the lease is locked.
unfoldable pub clean_up :
    Outbox → String → ℕ → Option SelectMaintenanceLeaseForUpdateRow → M (Unit {0})
unfolding is_held_by_other tx_exec commit
clean_up o topic ttl none = raise (database other)
clean_up o topic ttl (some lease) =
    if is_held_by_other o.instance_id lease then raise lease_held else do
      db_now ← gets (λ w. w.db_now)
      tx_exec (update_maintenance_lease db_now topic o.instance_id)
      now ← gets (λ w. w.now)
      tx_exec (delete_expired_messages topic (now - ttl))
      commit
      pure tt

-- runMaintenance
unfoldable pub run_maintenance : Outbox → String → ℕ → M (Unit {0})
unfolding clean_up begin tx_exec tx_query
run_maintenance o topic ttl = do
  begin
  db_now ← gets (λ w. w.db_now)
  tx_exec (insert_maintenance_lease_if_absent db_now topic o.instance_id)
  cutoff ← gets (λ w. w.now - w.maintenance_lease_timeout)
  lease ← tx_query (select_maintenance_lease_for_update db_now cutoff topic)
  clean_up o topic ttl lease

unfoldable pub release_if_empty : Outbox → String → Option ℕ → M (Unit {0})
unfolding pool_exec
release_if_empty o topic none = do
  pool_exec (release_maintenance_lease topic o.instance_id)
  pure tt
release_if_empty o topic (some oldest) = pure tt

-- finishDormantTopic: each error is logged and ends it.
unfoldable pub finish_dormant_topic : Outbox → String → ℕ → M (Unit {0})
unfolding run_maintenance release_if_empty pool_query
finish_dormant_topic o topic ttl = logged do
  run_maintenance o topic ttl
  oldest ← pool_query (get_oldest_message_inserted_at topic)
  release_if_empty o topic oldest
