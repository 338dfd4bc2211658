-- ===== src/Outbox/Lease/Acquire.antt =====
-- How AcquireTopic ends: a lease with a watcher, or an error that leaves no lease unwatched.
use pgoutbox.Prelude.{
  ℕ, ◌+◌, ◌≤◌, String, ◌≡◌, ◌≢◌, refl, sym, ◌∙◌, ap, Bool, true, false, some, List, [], ◌∷◌, arith,
  number_test, text_test, if◌then◌else◌, elem, ==-false, elem_of_mem,
}
use mathlib.Core.List.{mem-cons}
use mathlib.Core.Logic.Or
use pgoutbox.Db.{Topic, ConsumerSession}
use pgoutbox.Db.Topics.{get_topic_for_update, find_topic}
use pgoutbox.World.{
  World, Result, ok, err, Error, M, exclusive_lease_required, context_ended, catch, ◌>>=◌,
}
use pgoutbox.World.Rules.{Gives, catch_rule, nest_rule}
use pgoutbox.Outbox.{Outbox}
use pgoutbox.Outbox.Access.{check_row}
use pgoutbox.Outbox.Lease.{
  try_acquire_topic_lease, expire_exclusive_lease_after_grace, expire_lease_if_watcher_orphaned,
  acquire_loop, acquire_topic, start_watcher, give_up, Wake, wake_up,
}
use pgoutbox.Outbox.Lease.Row.{lease_row}
use pgoutbox.Outbox.Lease.Granted.{Tries, failed, busy, granted, try_acquire-Tries}
use pgoutbox.Outbox.Lease.Lapse.{grace_lapses_after}
use pgoutbox.Outbox.Lease.Faults.{
  faults, Charged, works-answer, faults_of, faults_of_le, try_acquire-Charged,
}
use pgoutbox.Outbox.Lease.Release.{give_up_rule, stop_watcher_rule}

module _ (n : ℕ) (o : Outbox) (topic : String) (stopped : Bool) where
  -- How the loop of AcquireTopic can end, whatever its number of attempts, when at most `n` faults are
  -- to come.
  pub data Acquires (r : Result (Unit {0})) (w' : World) : Type 0 where
    held :
        r ≡ ok tt
        → elem topic w'.watchers ≡ true
        → get_topic_for_update topic w'.db
          ≡ some (lease_row o.instance_id (w'.now + w'.exclusive_lease_duration))
        → Acquires r w'
    gave_up :
        (e : Error) (v : World)
        → faults v.answers + faults_of e ≤ n
        → r ≡ err e
        → w' ≡ (expire_lease_if_watcher_orphaned o topic stopped v).1
        → Acquires r w'

  -- One attempt, and what follows when the lease is busy.
  attempt-Acquires :
      (again : M (Unit {0})) (w : World)
      → faults w.answers ≤ n
      → ((v : World) → faults v.answers ≤ n → Gives again v Acquires)
      → Gives
          (catch (try_acquire_topic_lease o topic) (give_up o topic stopped) >>= λ acquired.
            if acquired then start_watcher topic else again)
          w
          Acquires
  unfolding start_watcher
  attempt-Acquires again w le later =
      catch_rule {P = λ r v. Tries o topic w r v × Charged n r v} (try_acquire_topic_lease o topic)
        (give_up o topic stopped) _
        (record {
          at = ((try_acquire-Tries o topic w).at, (try_acquire-Charged n o topic w le).at);
        })
        (λ e v (_, fault). nest_rule _ _ (
          give_up_rule o topic stopped e
            (gave_up e v (let one = faults_of_le e in omega arith) refl refl)))
        (λ acquired v (tried, left). by_end acquired v tried left)
    where
      by_end :
          (acquired : Bool) (v : World)
          → Tries o topic w (ok acquired) v
          → faults v.answers ≤ n
          → Gives (if acquired then start_watcher topic else again) v Acquires
      by_end false v _ left = later v left
      by_end true v (failed e bad _) left = cc
      by_end true v (busy bad _ _) left = cc
      by_end true v (granted _ won env row) left = record {
        at = held refl (elem_of_mem _ (mem-cons.1 (Or.inl refl))) (rw env row);
      }

  acquire_loop-Acquires :
      (wakes : List Wake) (w : World)
      → faults w.answers ≤ n
      → Gives (acquire_loop o topic stopped wakes) w Acquires
  unfolding acquire_loop
  acquire_loop-Acquires [] w le =
      attempt-Acquires _ w le
        (λ v left. give_up_rule o topic stopped context_ended (gave_up _ v (omega arith) refl refl))
  acquire_loop-Acquires (k ∷ wakes) w le =
      attempt-Acquires _ w le
        (λ v left. record { at = (acquire_loop-Acquires wakes (wake_up k v) left).at })

module _ (o : Outbox) (topic : String) (wakes : List Wake) (w : World) where
  abbrev result : Result (Unit {0})
  result = (acquire_topic o topic wakes w).0

  abbrev after : World
  after = (acquire_topic o topic wakes w).1

  acquire_topic-Acquires :
      topic ≢ ""
      → Gives
          (acquire_topic o topic wakes)
          w
          (Acquires (faults w.answers) o topic (elem topic w.watchers))
  unfolding acquire_topic
  acquire_topic-Acquires named = rw (==-false topic "" named) (
      stop_watcher_rule o topic _ (
        acquire_loop-Acquires (faults w.answers) o topic (elem topic w.watchers) wakes _
          (omega arith)))

  -- When AcquireTopic succeeds for a topic with a name, whatever happened while it waited, its watcher
  -- runs and the topic's row names this instance, live for one lease duration from the successful
  -- attempt.
  pub acquire_topic_held :
      topic ≢ ""
      → result ≡ ok tt
      → (elem topic after.watchers ≡ true)
        × (get_topic_for_update topic after.db
            ≡ some (lease_row o.instance_id (after.now + after.exclusive_lease_duration)))
  acquire_topic_held named fine = by_end fine (acquire_topic-Acquires named).at
    where
      by_end :
          {r : Result (Unit {0})} {w' : World}
          → r ≡ ok tt
          → Acquires (faults w.answers) o topic (elem topic w.watchers) r w'
          → (elem topic w'.watchers ≡ true)
            × (get_topic_for_update topic w'.db
                ≡ some (lease_row o.instance_id (w'.now + w'.exclusive_lease_duration)))
      by_end fine (held _ watched row) = (watched, row)
      by_end fine (gave_up e v _ bad _) = cc

  -- When AcquireTopic fails for a topic with a name, after it has stopped the watcher of an earlier
  -- hold, a lease that still names this instance ends at most one lease duration later: from then on
  -- the access check refuses every instance, whatever heartbeats arrive. The condition is that the
  -- database has no other fault than the one that the error is about, and none at all if the error is
  -- the end of the context.
  pub acquire_topic_failure_lapses :
      (e : Error) (t : Topic) (sessions : List ConsumerSession) (b later : ℕ)
      → topic ≢ ""
      → elem topic w.watchers ≡ true
      → faults w.answers ≤ faults_of e
      → result ≡ err e
      → find_topic topic after.db.topics ≡ some t
      → t.exclusive_consumer_id ≡ some o.instance_id
      → after.now + after.exclusive_lease_duration ≤ later
      → check_row b later
          (get_topic_for_update topic (record after.db { consumer_sessions = sessions }))
        ≡ err exclusive_lease_required
  unfolding expire_lease_if_watcher_orphaned expire_exclusive_lease_after_grace
  acquire_topic_failure_lapses e t sessions b later named watched few bad there mine late =
      by_end bad there late (acquire_topic-Acquires named).at
    where
      by_end :
          {r : Result (Unit {0})} {w' : World}
          → r ≡ err e
          → find_topic topic w'.db.topics ≡ some t
          → w'.now + w'.exclusive_lease_duration ≤ later
          → Acquires (faults w.answers) o topic (elem topic w.watchers) r w'
          → check_row b later
              (get_topic_for_update topic (record w'.db { consumer_sessions = sessions }))
            ≡ err exclusive_lease_required
      by_end bad there late (held fine _ _) = cc
      by_end bad there late (gave_up x v spent lost left) =
          let same : faults_of x ≡ faults_of e =
            let one : err x ≡ err e = sym lost ∙ bad in ap faults_of cc in
          let end = rw (watched, expire_lease_if_watcher_orphaned) at left in
          let answered : faults v.answers ≤ 0 = omega arith in
          rw end (
            grace_lapses_after o topic v t sessions b later (works-answer v.answers answered)
              (rw end at there) mine (rw end at late))
