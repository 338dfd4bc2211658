-- ===== src/Outbox/Turns.antt =====
-- runMaintenanceLoop of outbox.go: the maintenance loop of one topic.
pub mod Outcome
use pgoutbox.Prelude.{
  ℕ, ◌+◌, ◌-◌, ◌*◌, max, String, Bool, true, false, Option, none, some, List, [], ◌∷◌, ltb,
  if◌then◌else◌,
}
use pgoutbox.Db.{second}
use pgoutbox.Db.Messages.{get_oldest_message_inserted_at}
use pgoutbox.World.{World, Result, ok, err, M, pure, gets, ◌>>=◌, ◌>>◌, attempt, logged, pool_query}
use pgoutbox.Outbox.{Outbox}
use pgoutbox.Outbox.Lease.{Wake, wake_up}
use pgoutbox.Outbox.Maintenance.{run_maintenance, finish_dormant_topic}

abbrev pub maintenance_idle_interval : ℕ
maintenance_idle_interval = 30 * second

abbrev pub maintenance_retry_interval : ℕ
maintenance_retry_interval = 5 * second

-- `floor` is maintenanceMinInterval.
abbrev pub sleep_for : ℕ → ℕ → ℕ
sleep_for floor d = max floor d

-- What follows the peek at the oldest message: how long to sleep. A failed peek is logged, and an error
-- of the cleanup too.
unfoldable pub after_peek : Outbox → String → ℕ → Result (Option ℕ) → M ℕ
unfolding run_maintenance logged
after_peek o topic ttl (err _) = pure maintenance_retry_interval
after_peek o topic ttl (ok none) = pure maintenance_idle_interval
after_peek o topic ttl (ok (some oldest)) = do
  now ← gets (λ w. w.now)
  if ltb now (oldest + ttl)
      then pure (oldest + ttl - now)
      else do logged (run_maintenance o topic ttl); pure maintenance_retry_interval

-- One round of the loop.
unfoldable pub maintenance_turn : Outbox → String → ℕ → M ℕ
unfolding after_peek pool_query attempt
maintenance_turn o topic ttl = do
  oldest ← attempt (pool_query (get_oldest_message_inserted_at topic))
  after_peek o topic ttl oldest

-- The rounds of the loop. A round that asks for a sleep of `d` goes on at the wake-up that `wakes` gives,
-- a function of the time that the sleep takes; after the last one its context has ended.
unfoldable pub maintenance_rounds : ℕ → Outbox → String → ℕ → List (ℕ → World → Wake) → M (Unit {0})
unfolding maintenance_turn
maintenance_rounds floor o topic ttl [] = pure tt
maintenance_rounds floor o topic ttl (k ∷ wakes) =
    let again = maintenance_rounds floor o topic ttl wakes in
    do d ← maintenance_turn o topic ttl; λ w. again (wake_up (k (sleep_for floor d) w) w)

-- runMaintenanceLoop: `dormant` is the flag that the scanner sets.
unfoldable pub run_maintenance_loop :
    ℕ → Outbox → String → ℕ → Bool → List (ℕ → World → Wake) → M (Unit {0})
unfolding maintenance_rounds finish_dormant_topic
run_maintenance_loop floor o topic ttl dormant wakes = do
  maintenance_rounds floor o topic ttl wakes
  if dormant then finish_dormant_topic o topic ttl else pure tt
