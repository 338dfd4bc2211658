-- ===== src/Tests.antt =====
-- A small outbox at work: the state that the tests start from.
pub mod Process
pub mod Lease
pub mod Add
pub mod Maintenance
pub mod Flow
pub mod Subscribe
pub mod PubSub
pub mod Construct
pub mod Watcher
pub mod Wrap
pub mod Collation
use pgoutbox.Prelude.{
  ℕ, ◌+◌, ◌*◌, String, Bool, false, true, ◌==◌, leb, number_test, ◌&&◌, if◌then◌else◌, Option, none,
  some, List, [], ◌∷◌, ◌++◌, pos,
}
use pgoutbox.Db.{Db, Message, Topic, ConsumerSession, AppRow, second}
use pgoutbox.World.{World, Env, Answer, Cause, canceled, fails}
use pgoutbox.Outbox.{
  Outbox, Flusher, flushed, refused, PubSubKind, pubsub, tx_publisher, nop_flusher,
}

abbrev pub first : Message
first = record { id = 1; inserted_at = 10 * second; topic = "orders"; payload = b'1' ∷ [] }

abbrev pub second_one : Message
second_one = record { id = 2; inserted_at = 20 * second; topic = "orders"; payload = b'2' ∷ [] }

abbrev pub elsewhere : Message
elsewhere = record { id = 3; inserted_at = 30 * second; topic = "mails"; payload = b'3' ∷ [] }

abbrev pub topic_row : String → Option ℕ → Option ℕ → Topic
topic_row topic consumer expires = record {
  topic = topic;
  expiration_nanos = none;
  exclusive_consumer_id = consumer;
  exclusive_consumer_expires_at = expires;
  last_inserted_at = some (10 * second);
}

abbrev pub session_of : ℕ → ℕ → ConsumerSession
session_of consumer expires = record {
  consumer_id = consumer;
  expires_at = expires;
  maintains_default_expiration = false;
}

-- Two messages for `orders` and one for `mails`; `leased` is the row of `orders`.
abbrev pub stored : Topic → Db
stored leased = record {
  messages = first ∷ second_one ∷ elsewhere ∷ [];
  next_id = 4;
  topics = leased ∷ topic_row "mails" none none ∷ [];
  consumer_sessions = session_of 7 (130 * second) ∷ session_of 8 (130 * second) ∷ [];
  maintenance_leases = [];
  notifications = [];
  app = [];
}

abbrev all_digits : List ℕ → Bool
all_digits [] = true
all_digits (c ∷ cs) = leb b'0' c && leb c b'9' && all_digits cs

-- The numbers among the JSON documents: leading spaces are dropped, and digits are kept.
abbrev pub as_jsonb : List ℕ → Option (List ℕ)
as_jsonb [] = none
as_jsonb (c ∷ cs) =
    let later = as_jsonb cs in
    if c == b' '
    then later
    else if leb b'0' c && leb c b'9' && all_digits cs
    then some (c ∷ cs)
    else none

abbrev pub at_second : ℕ → Env
at_second n = record {
  now = n * second;
  db_now = n * second;
  exclusive_lease_duration = 30 * second;
  maintenance_lease_timeout = 60 * second;
  locked_ids = λ _. false;
  locked_topics = λ _. false;
  locked_leases = λ _. false;
  to_jsonb = as_jsonb;
}

abbrev pub world : ℕ → Db → List Answer → World
world n db answers = record {
  env = at_second n;
  db = db;
  work = db;
  delivered = [];
  watchers = "orders" ∷ [];
  answers = answers;
}

-- A flusher that adds a row to a table of the application for each batch.
abbrev pub noting : Flusher
noting msgs app = flushed (app ++ (0 ∷ []) ∷ [])

abbrev pub instance_of : ℕ → PubSubKind → Outbox
instance_of id kind = record {
  instance_id = id;
  default_expiration = pos (3600 * second);
  pubsub_kind = kind;
  flushers = ("orders", noting) ∷ [];
}

abbrev pub free_db : Db
free_db = stored (topic_row "orders" none none)

abbrev pub leased_db : Db
leased_db = stored (topic_row "orders" (some 7) none)
