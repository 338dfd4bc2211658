-- ===== src/Outbox/Renewer/Extended.antt =====
-- What the renewer does to the leases of its instance.
use pgoutbox.Prelude.{ℕ, ◌+◌, String, ◌≡◌, sym, ap, ◌∙◌, subst, none, some, List, [], ◌∷◌, ◌++◌}
use pgoutbox.Db.{Topic}
use pgoutbox.Db.Topics.{find_topic, get_topic_for_update}
use pgoutbox.World.{World, M, pure, ◌>>=◌, logged, works, answer}
use pgoutbox.World.Rules.{logged-ok}
use pgoutbox.World.Attempts.{logged-world}
use pgoutbox.Outbox.{Outbox}
use pgoutbox.Outbox.Lease.{Wake, wake_up, upsert_own_session}
use pgoutbox.Outbox.Lease.Row.{lease_row}
use pgoutbox.Outbox.Lease.Heartbeat.{heartbeat_extends}
use pgoutbox.Outbox.Renewer.{run_consumer_session_renewer}

-- What goes on after a logged error starts from what was left.
logged_then :
    {B : Type 0} (m : M (Unit {0})) (k : Unit {0} → M B) (w : World)
    → (logged m >>= k) w ≡ k tt (m w).1
unfolding ◌>>=◌
logged_then m k w = rw (logged-ok m w) (ap (k tt) (logged-world m w))

module _ (o : Outbox) where
  beat : World → World
  beat w = (upsert_own_session o w).1

  renewer-cons :
      (k : Wake) (wakes : List Wake) (w : World)
      → run_consumer_session_renewer o (k ∷ wakes) w
        ≡ run_consumer_session_renewer o wakes (beat (wake_up k w))
  unfolding run_consumer_session_renewer beat
  renewer-cons k wakes w =
      logged_then (upsert_own_session o) (λ _. run_consumer_session_renewer o wakes) (wake_up k w)

  renewer-last :
      (wakes : List Wake) (k : Wake) (w : World)
      → (run_consumer_session_renewer o (wakes ++ k ∷ []) w).1
        ≡ beat (wake_up k (run_consumer_session_renewer o wakes w).1)
  unfolding run_consumer_session_renewer beat pure
  renewer-last [] k w = ap (λ r. r.1) (renewer-cons k [] w)
  renewer-last (x ∷ wakes) k w =
      ap (λ r. r.1) (renewer-cons x (wakes ++ k ∷ []) w)
      ∙ renewer-last wakes k (beat (wake_up x w))
      ∙ ap (λ r. beat (wake_up k r.1)) (sym (renewer-cons x wakes w))

  -- Whatever became of the heartbeats before, and whatever others did between them: when the last one
  -- is answered, each lease of the instance that has no expiry of its own lasts for one lease duration
  -- from then, and a lease with an expiry of its own ends when that says.
  pub renewer_extends :
      (topic : String) (wakes : List Wake) (k : Wake) (w : World) (t : Topic)
      → find_topic topic k.db.topics ≡ some t
      → t.exclusive_consumer_id ≡ some o.instance_id
      → answer (run_consumer_session_renewer o wakes w).1 ≡ works
      → let (_, after) = run_consumer_session_renewer o (wakes ++ k ∷ []) w in
        (t.exclusive_consumer_expires_at ≡ none
          → get_topic_for_update topic after.db
            ≡ some (lease_row o.instance_id (k.env.now + k.env.exclusive_lease_duration)))
        × ((expires : ℕ)
            → t.exclusive_consumer_expires_at ≡ some expires
            → get_topic_for_update topic after.db ≡ some (lease_row o.instance_id expires))
  unfolding beat
  renewer_extends topic wakes k w t there mine answered =
      let (_, open_ended, ending) =
        heartbeat_extends o topic (wake_up k (run_consumer_session_renewer o wakes w).1) t there
          mine answered in
      subst
        (λ v.
          (t.exclusive_consumer_expires_at ≡ none
            → get_topic_for_update topic v.db
              ≡ some (lease_row o.instance_id (k.env.now + k.env.exclusive_lease_duration)))
          × ((expires : ℕ)
              → t.exclusive_consumer_expires_at ≡ some expires
              → get_topic_for_update topic v.db ≡ some (lease_row o.instance_id expires)))
        (sym (renewer-last wakes k w)) (open_ended, ending)
