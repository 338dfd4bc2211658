-- ===== src/Tests/Lease.antt =====
-- Exclusive leases, run.
use pgoutbox.Prelude.{
  ℕ, ◌*◌, ◌+◌, ◌<◌, ◌≤◌, ◌≡◌, ◌≢◌, refl, sym, ◌∙◌, String, true, false, [], ◌∷◌, arith, elem,
  text_test, ne_of_false, none, some,
}
use pgoutbox.Sql.{query_row}
use pgoutbox.Db.{Topic, second}
use pgoutbox.Db.Topics.{
  GetTopicForUpdateRow, get_topic_for_update, joined_row, find_topic, insert_topic_if_absent,
  renew_topic_exclusive_consumer,
}
use pgoutbox.World.{
  World, ok, err, ◌>>=◌, catch, logged, works, fails, other, database, exclusive_lease_held,
  exclusive_lease_required, answer,
}
use pgoutbox.Outbox.{Outbox, pubsub}
use pgoutbox.Outbox.Access.{check_row}
use pgoutbox.Outbox.Lease.{
  Wake, try_acquire_topic_lease, acquire_topic, release_topic, held_by_other,
}
use pgoutbox.Outbox.Lease.Row.{lease_row}
use pgoutbox.Outbox.Lease.Exclusion.{acquire_granted, acquire_excludes}
use pgoutbox.Outbox.Renewer.{run_consumer_session_renewer}
use pgoutbox.Outbox.Renewer.Extended.{renewer_extends}
use pgoutbox.Outbox.Lease.Release.{release_frees}
use pgoutbox.Outbox.Lease.Acquire.{acquire_topic_held, acquire_topic_failure_lapses}
use pgoutbox.Tests.{topic_row, at_second, world, free_db, leased_db, instance_of}

abbrev holder : Outbox
holder = instance_of 7 pubsub

abbrev rival : Outbox
rival = instance_of 8 pubsub

abbrev start : World
start = world 100 free_db []

abbrev leased : World
leased = world 100 leased_db []

abbrev leased_row : Topic
leased_row = topic_row "orders" (some 7) none

abbrev short_lease : GetTopicForUpdateRow
short_lease = lease_row 7 (130 * second)

passes : check_row holder.instance_id (100 * second) (some short_lease) ≡ ok tt
unfolding check_row
passes = refl

passes_later : check_row holder.instance_id (110 * second) (some short_lease) ≡ ok tt
unfolding check_row
passes_later = refl

granted_once : (try_acquire_topic_lease holder "orders" start).0 ≡ ok true
unfolding try_acquire_topic_lease ◌>>=◌ get_topic_for_update query_row insert_topic_if_absent
    joined_row
granted_once = refl

abbrev acquired : World
acquired = (try_acquire_topic_lease holder "orders" start).1

acquire_granted_example :
    (110 * second < 100 * second + 30 * second
      → (check_row 7 (110 * second) (get_topic_for_update "orders" acquired.db) ≡ ok tt)
        × ((b : ℕ)
            → b ≢ 7
            → check_row b (110 * second) (get_topic_for_update "orders" acquired.db)
              ≡ err exclusive_lease_held))
    × (100 * second + 30 * second ≤ 110 * second
        → (b : ℕ)
        → check_row b (110 * second) (get_topic_for_update "orders" acquired.db)
          ≡ err exclusive_lease_required)
acquire_granted_example = acquire_granted holder "orders" start granted_once (110 * second)

busy_for_rival : (try_acquire_topic_lease rival "orders" leased).0 ≡ ok false
unfolding try_acquire_topic_lease ◌>>=◌ get_topic_for_update query_row insert_topic_if_absent
    joined_row
busy_for_rival = refl

not_granted : (try_acquire_topic_lease rival "orders" leased).0 ≢ ok true
not_granted h = let e = sym busy_for_rival ∙ h in cc

abbrev soon : World
soon = world 110 acquired.db []

acquire_excludes_example : (try_acquire_topic_lease rival "orders" soon).0 ≢ ok true
acquire_excludes_example =
    acquire_excludes holder rival "orders" start soon granted_once refl (omega arith)
      (λ e. omega arith)

found_leased : find_topic "orders" leased_db.topics ≡ some leased_row
unfolding query_row
found_leased = refl

released_once : (release_topic holder "orders" leased).0 ≡ ok tt
unfolding release_topic ◌>>=◌ catch
released_once = refl

abbrev next_try : World
next_try = world 100 (release_topic holder "orders" leased).1.db []

release_frees_example :
    (try_acquire_topic_lease rival "orders" (record next_try { answers = [] })).0 ≡ ok true
release_frees_example =
    release_frees holder rival "orders" leased next_try leased_row found_leased refl released_once
      refl (omega arith)

free_row : get_topic_for_update "orders" leased_db ≡ some short_lease
unfolding get_topic_for_update query_row joined_row
free_row = refl

unheld : held_by_other 8 (131 * second) short_lease ≡ false
unfolding held_by_other
unheld = refl

named : ◌≢◌ {A = String} "orders" ""
named = ne_of_false "orders" "" refl

acquired_topic : (acquire_topic holder "orders" [] start).0 ≡ ok tt
unfolding acquire_topic ◌>>=◌ catch try_acquire_topic_lease get_topic_for_update query_row
    insert_topic_if_absent joined_row
acquired_topic = refl

acquire_topic_held_example :
    let after = (acquire_topic holder "orders" [] start).1 in
    (elem "orders" after.watchers ≡ true)
    × (get_topic_for_update "orders" after.db
        ≡ some (lease_row 7 (after.now + after.exclusive_lease_duration)))
acquire_topic_held_example = acquire_topic_held holder "orders" [] start named acquired_topic

watched : elem "orders" start.watchers ≡ true
unfolding elem
watched = refl

-- The attempt's second statement fails.
abbrev failing : World
failing = world 100 leased_db (works ∷ fails other ∷ [])

failed_topic : (acquire_topic holder "orders" [] failing).0 ≡ err (database other)
unfolding acquire_topic ◌>>=◌ catch try_acquire_topic_lease elem logged
failed_topic = refl

abbrev after_failure : Topic
after_failure = record leased_row { exclusive_consumer_expires_at = some (130 * second) }

acquire_topic_failure_lapses_example :
    let after = (acquire_topic holder "orders" [] failing).1 in
    check_row 9
      (130 * second)
      (get_topic_for_update "orders" (record after.db { consumer_sessions = [] }))
    ≡ err exclusive_lease_required
unfolding acquire_topic ◌>>=◌ catch try_acquire_topic_lease elem logged query_row
    renew_topic_exclusive_consumer
acquire_topic_failure_lapses_example =
    acquire_topic_failure_lapses holder "orders" [] failing (database other) after_failure [] 9
      (130 * second) named watched (omega arith) failed_topic refl refl (omega arith)

-- The first heartbeat fails, the second is answered.
abbrev beats_at : ℕ → Wake
beats_at n = record { env = at_second n; db = leased_db }

abbrev first_fails : World
first_fails = world 100 leased_db (fails other ∷ [])

answered_next :
    answer (run_consumer_session_renewer holder (beats_at 105 ∷ []) first_fails).1 ≡ works
unfolding run_consumer_session_renewer ◌>>=◌ logged catch
answered_next = refl

renewer_extends_example :
    let (_, after) =
      run_consumer_session_renewer holder (beats_at 105 ∷ beats_at 110 ∷ []) first_fails in
    (leased_row.exclusive_consumer_expires_at ≡ none
      → get_topic_for_update "orders" after.db ≡ some (lease_row 7 (110 * second + 30 * second)))
    × ((expires : ℕ)
        → leased_row.exclusive_consumer_expires_at ≡ some expires
        → get_topic_for_update "orders" after.db ≡ some (lease_row 7 expires))
renewer_extends_example =
    renewer_extends holder "orders" (beats_at 105 ∷ []) (beats_at 110) first_fails leased_row
      found_leased refl answered_next
