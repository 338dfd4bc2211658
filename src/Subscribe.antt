-- ===== src/Subscribe.antt =====
-- subscribe.go: the options of Subscribe, its processing pass and its loop.
pub mod Pass
pub mod Backlog
pub mod Delivered
pub mod Loop
use pgoutbox.Prelude.{
  ℕ, zero, suc, ◌*◌, ◌||◌, Bool, true, false, ◌&&◌, String, Option, none, some, List, [], ◌∷◌, ◌++◌,
  length, ◌==◌, number_test, text_test, if◌then◌else◌, ℤ, pos, negsuc,
}
use pgoutbox.Db.{second}
use pgoutbox.World.{
  World, Result, ok, err, Error, M, pure, raise, ◌>>=◌, ◌>>◌, logged, empty_topic, no_flusher,
  context_ended, exclusive_lease_held, exclusive_lease_required,
}
use pgoutbox.Outbox.{Outbox, get_flusher}
use pgoutbox.Outbox.Process.{ProcessOpt, process_messages}
use pgoutbox.Outbox.Lease.{Wake, wake_up, acquire_topic, release_topic}

pub record SubscribeOpts : Type 0 where
  pub poll_interval : ℕ
  pub process_opts : List ProcessOpt
  pub exclusive : Bool

abbrev pub default_poll_interval : ℕ
default_poll_interval = 5 * second

abbrev pub default_subscribe_opts : SubscribeOpts
default_subscribe_opts = record {
  poll_interval = default_poll_interval;
  process_opts = [];
  exclusive = false;
}

-- WithPollInterval, WithProcessOpts and WithExclusive.
pub data SubscribeOpt : Type 0 where
  with_poll_interval : ℤ → SubscribeOpt
  with_process_opts : List ProcessOpt → SubscribeOpt
  with_exclusive : SubscribeOpt

unfoldable pub apply_subscribe_opt : SubscribeOpts → SubscribeOpt → SubscribeOpts
apply_subscribe_opt so (with_poll_interval (negsuc d)) = so
apply_subscribe_opt so (with_poll_interval (pos d)) =
    if d == 0 then so else record so { poll_interval = d }
apply_subscribe_opt so (with_process_opts popts) = record so {
  process_opts = so.process_opts ++ popts;
}
apply_subscribe_opt so with_exclusive = record so { exclusive = true }

unfoldable pub apply_subscribe_opts : SubscribeOpts → List SubscribeOpt → SubscribeOpts
unfolding apply_subscribe_opt
apply_subscribe_opts so [] = so
apply_subscribe_opts so (opt ∷ opts) = apply_subscribe_opts (apply_subscribe_opt so opt) opts

-- What other transactions commit, and how the clocks go on, between two calls of ProcessMessages.
abbrev pub Meanwhile : Type 0
Meanwhile = World → Wake

-- processTopicUntilEmpty: `rounds` tests find the context alive, and the next one finds it ended.
unfoldable pub process_topic_until_empty :
    Outbox → List ProcessOpt → String → Meanwhile → ℕ → M (Unit {0})
unfolding process_messages
process_topic_until_empty o popts topic meanwhile zero = raise context_ended
process_topic_until_empty o popts topic meanwhile (suc rounds) =
    let again = process_topic_until_empty o popts topic meanwhile rounds in
    do
      msgs ← process_messages o popts topic
      if length msgs == 0 then pure tt else (λ w. again (wake_up (meanwhile w) w))
