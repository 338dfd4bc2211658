-- ===== src/Outbox.antt =====
-- outbox.go: the state of an outbox instance and its options.
pub mod Add
pub mod Access
pub mod Process
pub mod Lease
pub mod Maintenance
pub mod Loops
pub mod Turns
pub mod Scan
pub mod Renewer
pub mod Claims
pub mod RoundTrip
pub mod Invariant
pub mod Runs
use pgoutbox.Prelude.{
  ℕ, String, Option, none, some, List, [], ◌∷◌, ◌==◌, text_test, ℤ, if◌then◌else◌,
}
use pgoutbox.Db.{Message, AppRow}
use pgoutbox.World.{Cause}

-- What Flush returns: nil, with the application's rows as it left them, or an error.
pub data FlushResult : Type 0 where
  flushed : List AppRow → FlushResult
  refused : Cause → FlushResult

-- Flusher.Flush: it may write the application's rows through the transaction.
abbrev pub Flusher : Type 0
Flusher = List Message → List AppRow → FlushResult

-- NopFlusher.Flush
abbrev pub nop_flusher : Flusher
nop_flusher msgs app = flushed app

-- What the configured PubSub can do: `tx_publisher` is a PubSub that implements TxPublisher.
pub data PubSubKind : Type 0 where
  no_pubsub pubsub tx_publisher : PubSubKind

pub record Outbox : Type 0 where
  pub instance_id : ℕ
  pub default_expiration : ℤ
  pub pubsub_kind : PubSubKind
  pub flushers : List (String × Flusher)

remove_flusher : String → List (String × Flusher) → List (String × Flusher)
remove_flusher topic [] = []
remove_flusher topic ((t, f) ∷ fs) =
    let rest = remove_flusher topic fs in if t == topic then rest else (t, f) ∷ rest

-- AddFlusher: a second flusher for a topic replaces the first.
unfoldable pub add_flusher : String → Flusher → Outbox → Outbox
unfolding remove_flusher
add_flusher topic f o = record o { flushers = (topic, f) ∷ remove_flusher topic o.flushers }

find_flusher : String → List (String × Flusher) → Option Flusher
find_flusher topic [] = none
find_flusher topic ((t, f) ∷ fs) = if t == topic then some f else find_flusher topic fs

-- getFlusher
unfoldable pub get_flusher : Outbox → String → Option Flusher
unfolding find_flusher
get_flusher o topic = find_flusher topic o.flushers
