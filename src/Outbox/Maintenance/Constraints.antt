-- ===== src/Outbox/Maintenance/Constraints.antt =====
-- The cleanup keeps the constraints of the schema.
use pgoutbox.Prelude.{
  ℕ, String, refl, inl, inr, Option, none, some, List, Option-cases, ◌==◌, text_test,
}
use pgoutbox.Sql.Keys.{UniqueKeys, UniqueKeys-select, UniqueKeys-append_row, map-update_where}
use pgoutbox.Db.{Db, MaintenanceLease}
use pgoutbox.Db.Leases.{
  find_lease, held_from, insert_maintenance_lease_if_absent, update_maintenance_lease,
  release_maintenance_lease,
}
use pgoutbox.Db.IsWellFormed.{IsWellFormed, delete_expired_messages-IsWellFormed}
use pgoutbox.World.{World, Result, rest}
use pgoutbox.World.Rules.{Gives, logged_rule, pool_exec_rule, pool_query_rule, pure_rule}
use pgoutbox.World.Keeps.{bind_rule}
use pgoutbox.Outbox.{Outbox}
use pgoutbox.Outbox.Maintenance.{run_maintenance, release_if_empty, finish_dormant_topic}
use pgoutbox.Outbox.Maintenance.Cleanup.{
  Cleans, stopped, kept_out, cleaned_up, run_maintenance-Cleans,
}

module _ {db : Db} (v : IsWellFormed db) where
  pub leases-IsWellFormed_with :
      (leases : List MaintenanceLease)
      → UniqueKeys (λ (l : MaintenanceLease). l.topic) leases
      → IsWellFormed (record db { maintenance_leases = leases })
  leases-IsWellFormed_with leases u = record {
    message_ids = v.message_ids;
    ids_below = v.ids_below;
    topic_keys = v.topic_keys;
    session_keys = v.session_keys;
    lease_keys = u;
    registered = v.registered;
  }

  pub insert_maintenance_lease_if_absent-IsWellFormed :
      (now : ℕ) (topic : String) (holder : ℕ)
      → IsWellFormed (insert_maintenance_lease_if_absent now topic holder db)
  unfolding insert_maintenance_lease_if_absent
  insert_maintenance_lease_if_absent-IsWellFormed now topic holder =
      elim (Option-cases (find_lease topic db.maintenance_leases)) [
        | inl absent ↦
            rw (absent, insert_maintenance_lease_if_absent)
              (leases-IsWellFormed_with _ (
                UniqueKeys-append_row (λ (l : MaintenanceLease). l.topic) db.maintenance_leases _
                  v.lease_keys absent))
        | inr (l, there) ↦ rw (there, insert_maintenance_lease_if_absent) v
      ]

  update_maintenance_lease-IsWellFormed :
      (now : ℕ) (topic : String) (holder : ℕ)
      → IsWellFormed (update_maintenance_lease now topic holder db)
  unfolding update_maintenance_lease
  update_maintenance_lease-IsWellFormed now topic holder = leases-IsWellFormed_with _ (
      rw
        (map-update_where (λ (l : MaintenanceLease). l.topic) (λ l. l.topic == topic)
          (held_from now holder) db.maintenance_leases (λ l. refl))
        v.lease_keys)

  release_maintenance_lease-IsWellFormed :
      (topic : String) (holder : ℕ) → IsWellFormed (release_maintenance_lease topic holder db)
  unfolding release_maintenance_lease
  release_maintenance_lease-IsWellFormed topic holder =
      leases-IsWellFormed_with _
        (UniqueKeys-select (λ (l : MaintenanceLease). l.topic) _ db.maintenance_leases v.lease_keys)

module _ (o : Outbox) (topic : String) (ttl : ℕ) where
  run_maintenance-IsWellFormed :
      (w : World) → IsWellFormed w.db → IsWellFormed (run_maintenance o topic ttl w).1.db
  run_maintenance-IsWellFormed w v = by_end (run_maintenance-Cleans o topic ttl w).at
    where
      by_end : {r : Result (Unit {0})} {w' : World} → Cleans o topic ttl w r w' → IsWellFormed w'.db
      by_end (stopped e _ d) = rw d v
      by_end (kept_out _ _ _ _ d) = rw d v
      by_end (cleaned_up _ _ _ _ d) = rw d (
          delete_expired_messages-IsWellFormed
            (update_maintenance_lease-IsWellFormed
              (insert_maintenance_lease_if_absent-IsWellFormed v w.db_now topic o.instance_id)
              w.db_now topic o.instance_id)
            topic _)

  release_if_empty-IsWellFormed :
      (oldest : Option ℕ) (w : World)
      → IsWellFormed w.db
      → Gives (release_if_empty o topic oldest) w (λ r w'. IsWellFormed w'.db)
  unfolding release_if_empty
  release_if_empty-IsWellFormed (some t) w v = pure_rule tt v
  release_if_empty-IsWellFormed none w v =
      let done = release_maintenance_lease-IsWellFormed v topic o.instance_id in
      pool_exec_rule _ _ (λ c. v) (λ c l. done) (pure_rule tt done)

  finish_dormant_topic-Keeps :
      (w : World)
      → IsWellFormed w.db
      → Gives (finish_dormant_topic o topic ttl) w (λ r w'. IsWellFormed w'.db)
  unfolding finish_dormant_topic
  finish_dormant_topic-Keeps w v = logged_rule _ (
      bind_rule {Q = λ w'. IsWellFormed w'.db} (run_maintenance o topic ttl) _
        (record { at = run_maintenance-IsWellFormed w v })
        (λ _ u vu. pool_query_rule _ _ (λ c. vu) (release_if_empty-IsWellFormed _ (rest u) vu)))

  -- The cleanup of a topic and its dormancy exit keep the constraints of the schema, on every path and
  -- whatever the database answers.
  pub maintenance-IsWellFormed :
      (w : World)
      → IsWellFormed w.db
      → IsWellFormed (run_maintenance o topic ttl w).1.db
        × IsWellFormed (finish_dormant_topic o topic ttl w).1.db
  maintenance-IsWellFormed w v =
      (run_maintenance-IsWellFormed w v, (finish_dormant_topic-Keeps w v).at)
