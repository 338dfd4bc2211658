-- ===== src/Tests/Flow.antt =====
-- Messages added, committed and processed.
use mathlib.Core.List.{mem-cons, not-mem-nil}
use mathlib.Core.Logic.Or
use mathlib.Core.HLevel.{⊥_prop}
use pgoutbox.Prelude.{
  ◌≡◌, ◌≢◌, refl, sym, ◌∙◌, ap, List, [], ◌∷◌, ◌++◌, map, Mem, arith, elem, none, some, ne_of_false,
  text_test,
}
use pgoutbox.Sql.{query_row}
use pgoutbox.Db.{Message}
use pgoutbox.Db.Topics.{get_topic_for_update, joined_row, insert_message}
use pgoutbox.World.{World, ok, ◌>>=◌}
use pgoutbox.Outbox.{Outbox, pubsub, get_flusher}
use pgoutbox.Outbox.Access.{check_row}
use pgoutbox.Outbox.Add.{MessageOpts, add_messages}
use pgoutbox.Outbox.Process.{process_messages}
use pgoutbox.Outbox.Add.Stored.{StoredAs}
use pgoutbox.Outbox.RoundTrip.{add_then_process}
use pgoutbox.Tests.{as_jsonb, elsewhere, world, free_db, instance_of, noting}

abbrev me : Outbox
me = instance_of 7 pubsub

abbrev start : World
start = world 100 (record free_db { messages = elsewhere ∷ [] }) []

abbrev one : MessageOpts
one = record { payload = b' ' ∷ b'7' ∷ [] }

abbrev another : MessageOpts
another = record { payload = b'8' ∷ [] }

no_orders : (x : Message) → Mem x (elsewhere ∷ []) → x.topic ≢ "orders"
no_orders x m e =
    Or.elim ⊥_prop (mem-cons.0 m)
      (λ same. ne_of_false "mails" "orders" refl (sym (ap (λ (y : Message). y.topic) same) ∙ e))
      not-mem-nil

added : (add_messages me "orders" (one ∷ another ∷ []) none start).0 ≡ ok none
unfolding add_messages ◌>>=◌
added = refl

abbrev committed : World
committed = world 101 (add_messages me "orders" (one ∷ another ∷ []) none start).1.work []

allowed : check_row 7 committed.now (get_topic_for_update "orders" committed.db) ≡ ok tt
unfolding check_row get_topic_for_update query_row add_messages ◌>>=◌ insert_message elem joined_row
allowed = refl

has_flusher : get_flusher me "orders" ≡ some noting
unfolding get_flusher
has_flusher = refl

add_then_process_example :
    let (r, after) = process_messages me [] "orders" (record committed { answers = [] }) in
    (batch : List Message) × (r ≡ ok batch)
    × StoredAs as_jsonb (one ∷ another ∷ []) (map (λ (x : Message). x.payload) batch)
    × (after.delivered ≡ batch ∷ [])
add_then_process_example =
    add_then_process me "orders" one (another ∷ []) none none start committed noting
      (committed.db.app ++ (0 ∷ []) ∷ []) no_orders added (omega arith) refl (λ k. refl) allowed
      has_flusher (λ batch e. refl)
