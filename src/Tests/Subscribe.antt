-- ===== src/Tests/Subscribe.antt =====
-- Subscribe, run.
use mathlib.Core.List.{flatten, mem-cons}
use mathlib.Core.Logic.Or
use pgoutbox.Prelude.{
  ◌≤◌, ◌≡◌, ◌≢◌, refl, true, false, [], ◌∷◌, ◌++◌, List, Mem, arith, pos, ne_of_false, ◌==◌,
  number_test, elem, some, text_test,
}
use pgoutbox.Sql.{delete_where, query_row}
use pgoutbox.Db.{Message, Topic}
use pgoutbox.Db.Topics.{
  find_topic, get_topic_for_update, joined_row, bump_topic_activity_if_stale,
  insert_topic_if_absent, set_topic_exclusive_consumer,
}
use pgoutbox.Db.Sessions.{upsert_consumer_session}
use pgoutbox.Db.Messages.{acquire_messages_by_topic, delete_messages_by_ids}
use pgoutbox.Sql.Order.{order_by}
use pgoutbox.Outbox.Access.{check_row}
use pgoutbox.World.{World, ◌>>=◌, catch, ok, err, context_ended}
use pgoutbox.Outbox.{Outbox, pubsub, get_flusher}
use pgoutbox.Outbox.Process.{with_batch_size}
use pgoutbox.Outbox.Lease.{release_topic, try_acquire_topic_lease, acquire_topic}
use pgoutbox.Subscribe.{
  process_topic_until_empty, with_exclusive, with_process_opts, SubscribeOpt, apply_subscribe_opts,
}
use pgoutbox.Subscribe.Pass.{pass_terminates, pass_drains}
use pgoutbox.Subscribe.Backlog.{backlog}
use pgoutbox.Subscribe.Delivered.{pass_delivers_in_order, undisturbed, answering}
use pgoutbox.Subscribe.Loop.{Turn, notified, closed, subscribe, subscribe_from}
use pgoutbox.Subscribe.Loop.Handover.{subscribe_hands_over, so, holding}
use pgoutbox.Tests.Process.{different_ids}
use pgoutbox.Tests.{first, second_one, elsewhere, world, free_db, instance_of, noting, at_second}

abbrev me : Outbox
me = instance_of 7 pubsub

abbrev start : World
start = world 100 free_db []

-- One message at a time: two batches.
one_by_one :
    (process_topic_until_empty me
      (with_batch_size (pos 1) ∷ [])
      "orders"
      undisturbed
      3
      start).1.delivered
    ≡ (first ∷ []) ∷ (second_one ∷ []) ∷ []
unfolding process_topic_until_empty ◌>>=◌ get_flusher get_topic_for_update query_row joined_row
    acquire_messages_by_topic order_by bump_topic_activity_if_stale delete_messages_by_ids elem
one_by_one = refl

pass_terminates_example :
    let pass = process_topic_until_empty me [] "orders" undisturbed in
    ((pass 3 start).0 ≢ err context_ended) × (pass 8 start ≡ pass 3 start)
pass_terminates_example =
    pass_terminates me [] "orders" undisturbed (λ v. omega arith) 3 8 start (omega arith)
      (omega arith)

-- Another transaction holds the second message.
abbrev busy : World
busy = record start { env = record (at_second 100) { locked_ids = λ id. id == 2 } }

pass_fine : (process_topic_until_empty me [] "orders" undisturbed 3 busy).0 ≡ ok tt
unfolding process_topic_until_empty ◌>>=◌ get_flusher get_topic_for_update query_row joined_row
    acquire_messages_by_topic order_by bump_topic_activity_if_stale delete_messages_by_ids elem
pass_fine = refl

kept :
    (process_topic_until_empty me [] "orders" undisturbed 3 busy).1.db.messages
    ≡ second_one ∷ elsewhere ∷ []
unfolding process_topic_until_empty ◌>>=◌ get_flusher get_topic_for_update query_row joined_row
    acquire_messages_by_topic order_by bump_topic_activity_if_stale delete_messages_by_ids elem
kept = refl

kept_second :
    Mem second_one (process_topic_until_empty me [] "orders" undisturbed 3 busy).1.db.messages
kept_second = rw kept (mem-cons.1 (Or.inl refl))

pass_drains_example :
    (process_topic_until_empty me [] "orders" undisturbed 3 busy).1.locked_ids 2 ≡ true
pass_drains_example =
    pass_drains me [] "orders" undisturbed 3 busy second_one pass_fine kept_second refl

pass_delivers_in_order_example :
    let (r, w) = process_topic_until_empty me [] "orders" undisturbed 3 (answering start) in
    (r ≡ ok tt)
    × ((batches : List (List Message)) × (w.delivered ≡ [] ++ batches)
        × (flatten batches ≡ backlog "orders" free_db))
    × (w.db.messages ≡ delete_where (λ m. m.topic == "orders") free_db.messages)
unfolding get_flusher check_row get_topic_for_update query_row joined_row
pass_delivers_in_order_example =
    pass_delivers_in_order me [] "orders" noting 3 start refl (λ msgs app. (_, refl)) refl
      different_ids (λ id. refl) (omega arith)

-- The notification channel closes in the first turn; in the second, nothing happens any more.
abbrev two_turns : List Turn
two_turns =
    record {
      rounds = 3;
      meanwhile = undisturbed;
      waiting = [];
      cancelled = false;
      events = closed ∷ [];
      later = undisturbed;
    }
    ∷ record {
      rounds = 1;
      meanwhile = undisturbed;
      waiting = [];
      cancelled = false;
      events = notified ∷ [];
      later = undisturbed;
    }
    ∷ []

abbrev sopts : List SubscribeOpt
sopts = with_exclusive ∷ with_process_opts (with_batch_size (pos 1) ∷ []) ∷ []

subscribed : (subscribe me "orders" sopts [] (ok tt) two_turns start).0 ≡ err context_ended
unfolding subscribe ◌>>=◌ try_acquire_topic_lease get_topic_for_update query_row
    insert_topic_if_absent joined_row set_topic_exclusive_consumer upsert_consumer_session
    acquire_messages_by_topic order_by bump_topic_activity_if_stale delete_messages_by_ids elem
subscribed = refl

got_it : (acquire_topic me "orders" [] start).0 ≡ ok tt
unfolding acquire_topic ◌>>=◌ catch try_acquire_topic_lease get_topic_for_update query_row
    insert_topic_if_absent joined_row
got_it = refl

abbrev at_end : World
at_end =
    (subscribe_from me (so me "orders" sopts [] (ok tt) two_turns start) "orders" (ok tt) two_turns
      (holding me "orders" sopts [] (ok tt) two_turns start)).1

abbrev after : World
after = (subscribe me "orders" sopts [] (ok tt) two_turns start).1

subscribe_hands_over_example :
    (elem "orders" after.watchers ≡ false)
    × ((b : Outbox) (t : Topic) (x : World)
        → find_topic "orders" at_end.db.topics ≡ some t
        → t.exclusive_consumer_id ≡ some 7
        → (release_topic me "orders" at_end).0 ≡ ok tt
        → get_topic_for_update "orders" x.db ≡ get_topic_for_update "orders" after.db
        → at_end.now ≤ x.now
        → (try_acquire_topic_lease b "orders" (record x { answers = [] })).0 ≡ ok true)
unfolding get_flusher apply_subscribe_opts
subscribe_hands_over_example =
    subscribe_hands_over me "orders" sopts [] (ok tt) two_turns start noting
      (ne_of_false "orders" "" refl) refl refl got_it
