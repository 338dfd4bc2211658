-- ===== src/Tests/Maintenance.antt =====
-- Maintenance, run: claims, loops and cleanup.
use mathlib.Core.List.{Nodup-nil, Nodup-cons, mem-cons, not-mem-nil, Pairwise}
use mathlib.Core.Logic.Or
use mathlib.Core.Option
use pgoutbox.Prelude.{
  ℕ, ◌+◌, ◌-◌, ◌*◌, ◌/◌, ◌<◌, ◌≤◌, ◌≡◌, ◌≢◌, ◌⊎◌, refl, String, true, false, Option, none, some,
  ◌↔◌, List, [], ◌∷◌, map, Mem, elem, arith, text_test, number_test,
}
use pgoutbox.Sql.{query_row}
use pgoutbox.Sql.Order.{order_by}
use pgoutbox.Sql.Keys.{UniqueKeys}
use pgoutbox.Db.{Message, MaintenanceLease, second}
use pgoutbox.Db.Messages.{delete_expired_messages, get_oldest_message_inserted_at}
use pgoutbox.Db.Leases.{
  find_lease, is_lease_expired, insert_maintenance_lease_if_absent,
  select_maintenance_lease_for_update, update_maintenance_lease, SelectMaintenanceLeaseForUpdateRow,
}
use pgoutbox.World.{World, ok, ◌>>=◌}
use pgoutbox.Outbox.{Outbox, pubsub}
use pgoutbox.Outbox.Maintenance.{is_held_by_other, run_maintenance, finish_dormant_topic}
use pgoutbox.Outbox.Maintenance.Cleanup.{lease, after_cleanup, cleanup_result}
use pgoutbox.Outbox.Maintenance.Holder.{cleanup_kept_out, cleanup_complete}
use pgoutbox.Outbox.Maintenance.Dormant.{dormant_exit}
use pgoutbox.Outbox.Turns.{maintenance_turn}
use pgoutbox.Outbox.Turns.Outcome.{maintenance_turn_fair, maintenance_turn_cleans}
use pgoutbox.Outbox.Loops.{
  ManagedTopic, Ttls, new_loop, find_ttl, reconcile_loops, reap_exited_loops,
}
use pgoutbox.Outbox.Loops.Reconciled.{one_loop_per_topic, topic_of}
use pgoutbox.Outbox.Claims.{ClaimClass, claim_budget}
use pgoutbox.Outbox.Claims.Share.{claim_budget_covers}
use pgoutbox.Outbox.Claims.Held.{lease_key}
use pgoutbox.Outbox.Scan.{ScanSettings, scan_topics}
use pgoutbox.Outbox.Scan.Spared.{scan_spares_live_leases}
use pgoutbox.Outbox.Scan.Started.{scan_starts_held}
use pgoutbox.Db.Listing.{get_topics_with_messages}
use pgoutbox.Db.Listing.Complete.{topics_with_messages_exact}
use pgoutbox.Tests.Collation.{by_code, by_code-IsCollation}
use pgoutbox.Tests.{second_one, elsewhere, world, free_db, instance_of}

abbrev me : Outbox
me = instance_of 7 pubsub

abbrev ttl : ℕ
ttl = 85 * second

abbrev start : World
start = world 100 free_db []

cleaned_once : cleanup_result me "orders" ttl start ≡ ok tt
unfolding run_maintenance ◌>>=◌ select_maintenance_lease_for_update query_row
    insert_maintenance_lease_if_absent
cleaned_once = refl

kept_two : (after_cleanup me "orders" ttl start).db.messages ≡ second_one ∷ elsewhere ∷ []
unfolding run_maintenance ◌>>=◌ select_maintenance_lease_for_update query_row
    insert_maintenance_lease_if_absent delete_expired_messages update_maintenance_lease
kept_two = refl

cleanup_complete_example :
    (Option.map
        (λ (l : MaintenanceLease). l.holder_id)
        (find_lease "orders" (after_cleanup me "orders" ttl start).db.maintenance_leases)
      ≡ some 7)
    × ((m : Message)
        → Mem m (after_cleanup me "orders" ttl start).db.messages
        → m.topic ≡ "orders"
        → 100 * second ≤ m.inserted_at + ttl)
cleanup_complete_example = cleanup_complete me "orders" ttl start cleaned_once

-- Instance 8, with a live session, holds the maintenance lease.
abbrev foreign : MaintenanceLease
foreign = record { topic = "orders"; holder_id = 8; acquired_at = 50 * second }

abbrev maintained : World
maintained = world 100 (record free_db { maintenance_leases = foreign ∷ [] }) []

foreign_found : find_lease "orders" maintained.db.maintenance_leases ≡ some foreign
unfolding query_row
foreign_found = refl

foreign_live :
    is_lease_expired (100 * second) (40 * second) maintained.db.consumer_sessions foreign ≡ false
unfolding is_lease_expired query_row
foreign_live = refl

cleanup_kept_out_example :
    ((after_cleanup me "orders" ttl maintained).db ≡ maintained.db)
    × (cleanup_result me "orders" ttl maintained ≢ ok tt)
cleanup_kept_out_example =
    cleanup_kept_out me "orders" ttl maintained foreign foreign_found (λ e. omega arith)
      foreign_live

dormant_exit_example :
    let (_, v) = finish_dormant_topic me "orders" ttl start in
    ((m : Message)
      → Mem m free_db.messages
      → ¬ Mem m v.db.messages
      → (m.topic ≡ "orders") × (m.inserted_at + ttl < 100 * second))
    × (find_lease "orders" v.db.maintenance_leases ≡ none
        → (find_lease "orders" free_db.maintenance_leases ≡ none)
          ⊎ ((m : Message) → Mem m v.db.messages → m.topic ≢ "orders"))
dormant_exit_example = dormant_exit me "orders" ttl start

maintenance_turn_fair_example :
    ((d : ℕ) × ((maintenance_turn me "orders" ttl start).0 ≡ ok d))
    × ((m : Message)
        → Mem m free_db.messages
        → ¬ Mem m (maintenance_turn me "orders" ttl start).1.db.messages
        → (m.topic ≡ "orders") × (m.inserted_at + ttl < 100 * second))
maintenance_turn_fair_example = maintenance_turn_fair me "orders" ttl start

abbrev own_row : SelectMaintenanceLeaseForUpdateRow
own_row = record { holder_id = 7; lease_expired = false }

own_locked : lease me "orders" ttl start ≡ some own_row
unfolding select_maintenance_lease_for_update query_row insert_maintenance_lease_if_absent
own_locked = refl

own_free : is_held_by_other 7 own_row ≡ false
unfolding is_held_by_other
own_free = refl

left_second : Mem second_one (maintenance_turn me "orders" ttl start).1.db.messages
unfolding maintenance_turn get_oldest_message_inserted_at order_by run_maintenance ◌>>=◌
    select_maintenance_lease_for_update query_row insert_maintenance_lease_if_absent
    delete_expired_messages update_maintenance_lease
left_second = mem-cons.1 (Or.inl refl)

maintenance_turn_cleans_example : 100 * second ≤ 20 * second + ttl
maintenance_turn_cleans_example =
    maintenance_turn_cleans me "orders" ttl start own_row second_one own_locked own_free left_second
      refl

abbrev running : List ManagedTopic
running = new_loop (("orders", ttl) ∷ []) "orders" ∷ []

-- The ttl of `orders` has been shortened since its loop started.
abbrev ttls : Ttls
ttls = ("orders", second) ∷ ("mails", ttl) ∷ []

abbrev ticked : List ManagedTopic
ticked = reconcile_loops ttls ("orders" ∷ "mails" ∷ []) (reap_exited_loops running)

one_loop_per_topic_example :
    UniqueKeys topic_of ticked
    × ((t : String) → Mem t ("orders" ∷ "mails" ∷ []) → Mem t (map topic_of ticked))
    × ((mt : ManagedTopic)
        → Mem mt running
        → mt.exited ≡ false
        → (find_ttl mt.topic ttls ≡ none
            → Mem (record mt { dormant = true; cancelled = true }) ticked)
          × ((t : ℕ)
              → find_ttl mt.topic ttls ≡ some t
              → elem mt.topic ("orders" ∷ "mails" ∷ []) ≡ false
              → Mem (record mt { cancelled = true }) ticked)
          × ((t : ℕ)
              → find_ttl mt.topic ttls ≡ some t
              → elem mt.topic ("orders" ∷ "mails" ∷ []) ≡ true
              → Mem mt ticked))
one_loop_per_topic_example =
    one_loop_per_topic ttls ("orders" ∷ "mails" ∷ []) running
      (Nodup-cons.1 (not-mem-nil, Nodup-nil))

abbrev class : ClaimClass
class = record { candidates = 7; held = 1; unleased = "mails" ∷ []; stale = "orders" ∷ [] }

claim_budget_covers_example :
    (7 ≤ 3 * (1 + claim_budget class 3))
    × (1 ≤ claim_budget class 3)
    × ((1 + claim_budget class 3 ≤ (7 + 3 - 1) / 3) ⊎ (claim_budget class 3 ≡ 1))
claim_budget_covers_example = claim_budget_covers class 3

abbrev settings : ScanSettings
settings = record {
  catchup_interval = 3600 * second;
  session_retention = 3600 * second;
  activity_slack = 120 * second;
}

scan_spares_live_leases_example :
    Mem foreign
      (scan_topics (λ ts. ts) by_code me settings none running maintained).1.db.maintenance_leases
scan_spares_live_leases_example =
    scan_spares_live_leases (λ ts. ts) by_code me settings none running maintained foreign
      (omega arith) (mem-cons.1 (Or.inl refl)) foreign_live

scan_starts_held_example :
    let (r, v) = scan_topics (λ ts. ts) by_code me settings none [] start in
    (last' : Option ℕ) × (loops : List ManagedTopic) × (r ≡ ok (last', loops))
    × ((mt : ManagedTopic)
        → Mem mt loops
        → ¬ Mem mt.topic []
        → Mem (mt.topic, 7) (map lease_key v.db.maintenance_leases))
scan_starts_held_example = scan_starts_held (λ ts. ts) by_code me settings [] none start

topics_with_messages_exact_example :
    ((topic : String)
      → Mem topic (get_topics_with_messages by_code free_db)
        ↔ Mem topic ("orders" ∷ "orders" ∷ "mails" ∷ []))
    × Pairwise (λ a b. by_code a b ≡ true) (get_topics_with_messages by_code free_db)
topics_with_messages_exact_example = topics_with_messages_exact by_code by_code-IsCollation free_db

two_topics : get_topics_with_messages by_code free_db ≡ "mails" ∷ "orders" ∷ []
unfolding get_topics_with_messages
two_topics = refl
