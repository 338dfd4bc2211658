-- ===== src/PubSub/Represents.antt =====
-- When the state of a pgPubSub represents mailboxes.
pub mod Opens
pub mod Closes
pub mod Posts
use mathlib.Core.Option
use pgoutbox.Prelude.{
  ℕ, ◌≤◌, String, ◌≡◌, ◌≢◌, Bool, true, false, not, Option, none, some, List, [], Nodup, length,
  elem, number_test, if◌then◌else◌,
}
use pgoutbox.PubSub.{
  PgPubSub, Channel, Listener, entry, subscriber_buffer_size, Outcome, disabled, panics, goes,
}
use pgoutbox.PubSub.Spec.{Mailbox, Spec, is_open_for}

abbrev pub channel_of : Option Mailbox → Channel
channel_of none = record { buffer = []; closed = false }
channel_of (some m) = record { buffer = m.items; closed = not m.open_yet }

-- The topic that the goroutine of an open mailbox will unsubscribe.
abbrev pub goroutine_of : Option Mailbox → Option String
goroutine_of none = none
goroutine_of (some m) = if m.open_yet then some m.topic else none

pub record Represents (p : PgPubSub) (s : Spec) : Type 0 where
  pub fresh : (id : ℕ) → p.next ≤ id → s id ≡ none
  pub holds : (id : ℕ) → p.channels id ≡ channel_of (s id)
  pub registered :
      (topic : String) (id : ℕ) → elem id (entry (p.subscribers topic)) ≡ is_open_for topic (s id)
  pub waits : (id : ℕ) → p.waiting id ≡ goroutine_of (s id)
  pub distinct : (topic : String) → Nodup (entry (p.subscribers topic))
  pub nonempty : (topic : String) → p.subscribers topic ≢ some []
  pub bounded : (id : ℕ) → length (p.channels id).buffer ≤ subscriber_buffer_size

-- The state after a step from `p` that leaves its life alone represents the mailboxes `s`, if the step
-- happens; a panic never does.
abbrev pub Simulated : PgPubSub → Spec → Outcome → Type 0
Simulated p s disabled = Unit
Simulated p s panics = ⊥
Simulated p s (goes q) =
    Represents q s × (q.next ≡ p.next) × (q.ended ≡ p.ended) × (q.listener ≡ p.listener)

-- The listener and the context do not count.
pub listener-Represents :
    (ended : Bool) (l : Listener) {p : PgPubSub} {s : Spec}
    → Represents p s
    → Represents (record p { ended = ended; listener = l }) s
listener-Represents ended l r = record {
  fresh = r.fresh;
  holds = r.holds;
  registered = r.registered;
  waits = r.waits;
  distinct = r.distinct;
  nonempty = r.nonempty;
  bounded = r.bounded;
}
