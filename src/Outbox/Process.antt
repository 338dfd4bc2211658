-- ===== src/Outbox/Process.antt =====
-- ProcessMessages of outbox.go.
pub mod Options
pub mod Atomic
pub mod Delivery
pub mod Batch
pub mod Progress
use pgoutbox.Prelude.{
  ℕ, ◌≡◌, refl, ◌^◌, ◌-◌, ◌||◌, String, none, some, List, [], ◌∷◌, ◌++◌, map, length, ltb, ◌==◌,
  number_test, leb, if◌then◌else◌, ℤ, pos, negsuc,
}
use pgoutbox.Db.{Message, AppRow}
use pgoutbox.Db.Messages.{acquire_messages_by_topic, delete_messages_by_ids}
use pgoutbox.Db.Topics.{bump_topic_activity_if_stale}
use pgoutbox.World.{
  World, Result, Cause, ok, err, M, pure, raise, gets, ◌>>=◌, ◌>>◌, begin, commit, tx_exec,
  tx_query, no_flusher, flusher_failed,
}
use pgoutbox.World.Rules.{Gives}
use pgoutbox.Outbox.{Outbox, Flusher, FlushResult, flushed, refused, get_flusher}
use pgoutbox.Outbox.Access.{check_exclusive_access_for_update}

-- ProcessOpt: the argument of WithBatchSize.
pub data ProcessOpt : Type 0 where
  with_batch_size : ℤ → ProcessOpt

abbrev pub default_batch_size : ℕ
default_batch_size = 1000

-- math.MaxInt32
abbrev pub max_int32 : ℕ
max_int32 = 2 ^ 31 - 1

-- WithBatchSize: `n <= 0 || n > math.MaxInt32` leaves the size as it is.
unfoldable pub apply_process_opt : ℕ → ProcessOpt → ℕ
apply_process_opt size (with_batch_size (negsuc n)) = size
apply_process_opt size (with_batch_size (pos n)) = if leb n 0 || ltb max_int32 n then size else n

unfoldable pub apply_process_opts : ℕ → List ProcessOpt → ℕ
unfolding apply_process_opt
apply_process_opts size [] = size
apply_process_opts size (opt ∷ opts) = apply_process_opts (apply_process_opt size opt) opts

-- f.Flush, on the application's rows of the open transaction.
unfoldable pub flush : Flusher → List Message → M (Unit {0})
flush f msgs w = elim (f msgs w.work.app) [
  | flushed app ↦
      (ok tt, record w { work = record w.work { app = app }; delivered = w.delivered ++ msgs ∷ [] })
  | refused c ↦ (err (flusher_failed c), w)
]

-- The part after the batch is locked.
unfoldable pub finish_batch : Flusher → String → List Message → M (List Message)
unfolding flush tx_exec commit
finish_batch f topic msgs = if length msgs == 0 then (do commit; pure []) else do
  flush f msgs
  tx_exec (delete_messages_by_ids topic (map (λ (m : Message). m.id) msgs))
  now ← gets (λ w. w.db_now)
  tx_exec (bump_topic_activity_if_stale now topic)
  commit
  pure msgs

unfoldable pub process_with : Outbox → Flusher → ℕ → String → M (List Message)
unfolding begin tx_query check_exclusive_access_for_update finish_batch
process_with o f batch_size topic = do
  begin
  check_exclusive_access_for_update o topic
  locked ← gets (λ w. w.locked_ids)
  msgs ← tx_query (acquire_messages_by_topic locked topic (some batch_size))
  finish_batch f topic msgs

-- ProcessMessages
unfoldable pub process_messages : Outbox → List ProcessOpt → String → M (List Message)
unfolding process_with apply_process_opts
process_messages o opts topic = elim (get_flusher o topic) [
  | none ↦ raise no_flusher
  | some f ↦ process_with o f (apply_process_opts default_batch_size opts) topic
]

-- A flush that succeeds is recorded, and one that fails ends the block.
pub flush_rule :
    {B : Type 0} {Q : Result B → World → Type 0} {w : World} (f : Flusher) (msgs : List Message)
    (k : Unit {0} → M B)
    → ((c : Cause) → Q (err (flusher_failed c)) w)
    → ((app : List AppRow)
        → f msgs w.work.app ≡ flushed app
        → Gives
            (k tt)
            (record w { work = record w.work { app = app }; delivered = w.delivered ++ msgs ∷ [] })
            Q)
    → Gives (flush f msgs >>= k) w Q
unfolding flush ◌>>=◌
flush_rule {Q = Q} {w} f msgs k bad good = by_result (f msgs w.work.app) refl
  where
    by_result : (r : FlushResult) → f msgs w.work.app ≡ r → Gives (flush f msgs >>= k) w Q
    by_result (flushed app) e = record { at = rw (e, flush) (good app e).at }
    by_result (refused c) e = record { at = rw (e, flush) (bad c) }
