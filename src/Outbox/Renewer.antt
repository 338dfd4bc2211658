-- ===== src/Outbox/Renewer.antt =====
-- runConsumerSessionRenewer of outbox.go: the heartbeats of an instance.
pub mod Extended
use pgoutbox.Prelude.{List, [], ◌∷◌}
use pgoutbox.World.{M, pure, ◌>>=◌, ◌>>◌, logged}
use pgoutbox.Outbox.{Outbox}
use pgoutbox.Outbox.Lease.{Wake, wake_up, upsert_own_session}

-- A heartbeat at each of `wakes`, an error of which is logged; then its context has ended.
unfoldable pub run_consumer_session_renewer : Outbox → List Wake → M (Unit {0})
unfolding upsert_own_session logged
run_consumer_session_renewer o [] = pure tt
run_consumer_session_renewer o (k ∷ wakes) =
    let again = run_consumer_session_renewer o wakes in
    λ w. (logged (upsert_own_session o) >> again) (wake_up k w)
