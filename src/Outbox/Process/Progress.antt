-- ===== src/Outbox/Process/Progress.antt =====
-- What ProcessMessages returns when nothing stands in its way.
use pgoutbox.Prelude.{
  ℕ, suc, String, ◌≡◌, ◌↔◌, refl, ap, ◌∙◌, Mem, Nodup, map, some, List, [], ◌∷◌, ◌++◌, arith, false,
  length, ◌==◌, number_test,
}
use pgoutbox.Db.{Message, AppRow}
use pgoutbox.Db.Topics.{get_topic_for_update, bump_topic_activity_if_stale}
use pgoutbox.Db.Messages.{delete_messages_by_ids}
use pgoutbox.World.{World, Result, ok, begin, commit, tx_exec, tx_query, ◌>>=◌}
use pgoutbox.Outbox.{Outbox, Flusher, flushed, get_flusher}
use pgoutbox.Outbox.Access.{check_row, check_exclusive_access_for_update}
use pgoutbox.Outbox.Process.{ProcessOpt, process_messages, flush, finish_batch}
use pgoutbox.Outbox.Process.Atomic.{after_batch, batch, size_of}
use pgoutbox.Outbox.Process.Delivery.{process_success_exact}

suc_ne_zero : (n : ℕ) → (suc n == 0) ≡ false
suc_ne_zero n = ground arith

module _ (o : Outbox) (opts : List ProcessOpt) (topic : String) (v : World) (f : Flusher) where
  -- The database answers everything.
  abbrev w : World
  w = record v { answers = [] }

  abbrev msgs : List Message
  msgs = batch o f (size_of o opts topic w) topic w

  -- A call that takes a batch, as a whole.
  pub process_batch :
      (m : Message) (ms : List Message) (app : List AppRow)
      → get_flusher o topic ≡ some f
      → check_row o.instance_id w.now (get_topic_for_update topic w.db) ≡ ok tt
      → msgs ≡ m ∷ ms
      → f (m ∷ ms) w.db.app ≡ flushed app
      → let left = after_batch w.db_now topic (m ∷ ms) app w.db in
        process_messages o opts topic w ≡ (
          ok (m ∷ ms),
          record w { db = left; work = left; delivered = w.delivered ++ (m ∷ ms) ∷ [] },
        )
  unfolding process_messages begin commit tx_exec tx_query flush finish_batch
      check_exclusive_access_for_update ◌>>=◌
  process_batch m ms app there pass some_left took =
      rw (there, process_messages)
        (rw (pass, check_exclusive_access_for_update)
          (rw some_left (rw (suc_ne_zero (length ms)) (rw (took, flush) refl))))

  app-after_batch :
      (m : Message) (ms : List Message) (app : List AppRow)
      → (after_batch w.db_now topic (m ∷ ms) app w.db).app ≡ app
  unfolding bump_topic_activity_if_stale delete_messages_by_ids
  app-after_batch m ms app = refl

  -- A call that finds nothing.
  pub process_nothing :
      get_flusher o topic ≡ some f
      → check_row o.instance_id w.now (get_topic_for_update topic w.db) ≡ ok tt
      → msgs ≡ []
      → process_messages o opts topic w ≡ (ok [], record w { work = w.db })
  unfolding process_messages begin commit tx_exec tx_query finish_batch
      check_exclusive_access_for_update ◌>>=◌
  process_nothing there pass none_left =
      rw (there, process_messages)
        (rw (pass, check_exclusive_access_for_update) (rw none_left refl))

  -- Where the stored ids are distinct: with a flusher that takes the batch, the access check passed and
  -- a database that answers, ProcessMessages returns the batch and has handed it over once. Afterwards
  -- the messages of the batch are gone and all others are stored, and the application's rows are as
  -- the flusher left them.
  pub process_progress :
      (m : Message) (ms : List Message) (app : List AppRow)
      → Nodup (map (λ (x : Message). x.id) v.db.messages)
      → get_flusher o topic ≡ some f
      → check_row o.instance_id w.now (get_topic_for_update topic w.db) ≡ ok tt
      → msgs ≡ m ∷ ms
      → f (m ∷ ms) w.db.app ≡ flushed app
      → let (r, w') = process_messages o opts topic w in
        (r ≡ ok (m ∷ ms))
        × (w'.delivered ≡ w.delivered ++ (m ∷ ms) ∷ [])
        × (w'.db.app ≡ app)
        × ((x : Message) → Mem x w'.db.messages ↔ (Mem x w.db.messages × (¬ Mem x (m ∷ ms))))
  process_progress m ms app keys there pass some_left took =
      let whole = process_batch m ms app there pass some_left took in
      let returned = ap (λ (x : Result (List Message) × World). x.0) whole in
      (
        returned,
        ap (λ (x : Result (List Message) × World). x.1.delivered) whole,
        ap (λ (x : Result (List Message) × World). x.1.db.app) whole ∙ app-after_batch m ms app,
        (process_success_exact o opts topic w (m ∷ ms) keys returned).1,
      )
