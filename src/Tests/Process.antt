-- ===== src/Tests/Process.antt =====
-- ProcessMessages, run.
use mathlib.Core.List.{Nodup-nil, Nodup-cons, mem-cons, not-mem-nil}
use mathlib.Core.Logic.Or
use mathlib.Core.HLevel.{⊥_prop}
use pgoutbox.Prelude.{
  ◌<◌, ◌≡◌, ◌↔◌, refl, ap, false, [], ◌∷◌, map, Mem, Nodup, arith, elem, length, some,
}
use pgoutbox.Sql.{query_row}
use pgoutbox.Sql.Order.{order_by}
use pgoutbox.Db.{Message}
use pgoutbox.Db.Messages.{acquire_messages_by_topic, delete_messages_by_ids}
use pgoutbox.Db.Topics.{get_topic_for_update, joined_row, bump_topic_activity_if_stale}
use pgoutbox.World.{World, ok, err, ◌>>=◌, works, fails, other, database, exclusive_lease_held}
use pgoutbox.Outbox.{Outbox, pubsub, get_flusher}
use pgoutbox.Outbox.Access.{check_row}
use pgoutbox.Outbox.Process.{process_messages, apply_process_opts}
use pgoutbox.Outbox.Process.Delivery.{
  process_at_least_once, process_success_exact, process_error_unchanged, process_without_access,
  locked_messages, result, after,
}
use pgoutbox.Outbox.Process.Progress.{process_progress}
use pgoutbox.Tests.{first, second_one, elsewhere, world, free_db, leased_db, instance_of, noting}

abbrev me : Outbox
me = instance_of 7 pubsub

abbrev stranger : Outbox
stranger = instance_of 8 pubsub

abbrev start : World
start = world 100 free_db []

-- The last statement's answer is an error.
abbrev failing : World
failing = world 100 free_db (works ∷ works ∷ works ∷ works ∷ fails other ∷ [])

abbrev leased : World
leased = world 100 leased_db []

pub different_ids : Nodup (map (λ (m : Message). m.id) free_db.messages)
different_ids = Nodup-cons.1 (
  (λ m.
      Or.elim ⊥_prop (mem-cons.0 m) (λ e. omega arith)
        (λ k. Or.elim ⊥_prop (mem-cons.0 k) (λ e. omega arith) not-mem-nil)),
  Nodup-cons.1 (
    (λ m. Or.elim ⊥_prop (mem-cons.0 m) (λ e. omega arith) not-mem-nil),
    Nodup-cons.1 (not-mem-nil, Nodup-nil),
  ),
)

stores_first : Mem first free_db.messages
stores_first = mem-cons.1 (Or.inl refl)

drained : result me [] "orders" start ≡ ok (first ∷ second_one ∷ [])
unfolding process_messages get_flusher ◌>>=◌ get_topic_for_update query_row joined_row
    acquire_messages_by_topic order_by
drained = refl

left_over : (after me [] "orders" start).db.messages ≡ elsewhere ∷ []
unfolding process_messages get_flusher ◌>>=◌ get_topic_for_update query_row joined_row
    acquire_messages_by_topic order_by bump_topic_activity_if_stale delete_messages_by_ids elem
left_over = refl

only_elsewhere : ¬ Mem first (elsewhere ∷ [])
only_elsewhere m =
    Or.elim ⊥_prop (mem-cons.0 m) (λ e. let same = ap (λ (x : Message). x.id) e in omega arith)
      not-mem-nil

first_gone : ¬ Mem first (after me [] "orders" start).db.messages
first_gone = rw left_over only_elsewhere

process_at_least_once_example :
    Mem first (locked_messages me [] "orders" start)
    × ((after me [] "orders" start).delivered ≡ locked_messages me [] "orders" start ∷ [])
process_at_least_once_example =
    process_at_least_once me [] "orders" start first different_ids stores_first first_gone

process_success_exact_example :
    (first ∷ second_one ∷ [] ≡ locked_messages me [] "orders" start)
    × ((m : Message)
        → Mem m (after me [] "orders" start).db.messages
          ↔ (Mem m free_db.messages × (¬ Mem m (first ∷ second_one ∷ []))))
process_success_exact_example =
    process_success_exact me [] "orders" start (first ∷ second_one ∷ []) different_ids drained

broken : result me [] "orders" failing ≡ err (database other)
unfolding process_messages get_flusher ◌>>=◌ get_topic_for_update query_row joined_row
    acquire_messages_by_topic order_by
broken = refl

process_error_unchanged_example : (after me [] "orders" failing).db ≡ free_db
process_error_unchanged_example =
    process_error_unchanged me [] "orders" failing (database other) broken (λ h. h)

barred : check_row 8 leased.now (get_topic_for_update "orders" leased_db) ≡ err exclusive_lease_held
unfolding check_row get_topic_for_update query_row joined_row
barred = refl

process_without_access_example :
    ((after stranger [] "orders" leased).db ≡ leased_db)
    × ((after stranger [] "orders" leased).delivered ≡ [])
process_without_access_example =
    process_without_access stranger [] "orders" leased exclusive_lease_held barred

has_flusher : get_flusher me "orders" ≡ some noting
unfolding get_flusher
has_flusher = refl

allowed : check_row 7 start.now (get_topic_for_update "orders" free_db) ≡ ok tt
unfolding check_row get_topic_for_update query_row joined_row
allowed = refl

locked_both : locked_messages me [] "orders" start ≡ first ∷ second_one ∷ []
unfolding acquire_messages_by_topic order_by apply_process_opts
locked_both = refl

process_progress_example :
    (result me [] "orders" start ≡ ok (first ∷ second_one ∷ []))
    × ((after me [] "orders" start).delivered ≡ (first ∷ second_one ∷ []) ∷ [])
    × ((after me [] "orders" start).db.app ≡ (0 ∷ []) ∷ [])
    × ((x : Message)
        → Mem x (after me [] "orders" start).db.messages
          ↔ (Mem x free_db.messages × (¬ Mem x (first ∷ second_one ∷ []))))
process_progress_example =
    process_progress me [] "orders" start noting first (second_one ∷ []) ((0 ∷ []) ∷ [])
      different_ids has_flusher allowed locked_both refl

short : length (acquire_messages_by_topic (λ _. false) "orders" (some 5) free_db) < 5
unfolding acquire_messages_by_topic order_by
short = omega arith
