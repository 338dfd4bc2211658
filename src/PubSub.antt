-- ===== src/PubSub.antt =====
-- pgpubsub.go and pubsub.go: the subscribers of a pgPubSub, its listener, and the steps of both. Each
-- step holds the mutex that the code holds for it. Channels live in a heap, which the map of
-- subscribers and their readers share.
pub mod Spec
pub mod Deliver
pub mod Represents
pub mod Refines
pub mod Promises
use pgoutbox.Prelude.{
  ℕ, suc, String, Bool, true, false, ◌||◌, Option, none, some, List, [], ◌∷◌, ◌++◌, length, elem,
  ltb, ◌==◌, number_test, text_test, if◌then◌else◌,
}
use pgoutbox.Sql.{delete_where}
use pgoutbox.Migrate.{codes, matches_schema_name}

pub record PubSubMessage : Type 0 where
  pub topic : String
  pub payload : List ℕ

abbrev pub subscriber_buffer_size : ℕ
subscriber_buffer_size = 16

-- A buffered Go channel. After close it can still be emptied.
pub record Channel : Type 0 where
  pub buffer : List PubSubMessage
  pub closed : Bool

-- The goroutine of the listener: not started, serving a connection, redialing, or over.
pub data Listener : Type 0 where
  not_started serving redialing over : Listener

-- `ended` is `p.ctx.Err() != nil`. The map `subscribers` is a function. A channel is its number, and
-- those from `next` on are not made yet. `waiting` gives, by channel, the topic that the
-- goroutine of its Sub will unsubscribe, until it has.
pub record PgPubSub : Type 0 where
  pub ended : Bool
  pub listener : Listener
  pub subscribers : String → Option (List ℕ)
  pub channels : ℕ → Channel
  pub next : ℕ
  pub waiting : ℕ → Option String

abbrev pub new_pg_pub_sub : PgPubSub
new_pg_pub_sub = record {
  ended = false;
  listener = not_started;
  subscribers = λ _. none;
  channels = λ _. record { buffer = []; closed = false };
  next = 0;
  waiting = λ _. none;
}

-- WithNotifyChannel and WithNotifyLogger.
pub data PgPubSubOpt : Type 0 where
  with_notify_channel : String → PgPubSubOpt
  with_notify_logger : PgPubSubOpt

abbrev pub default_notify_channel : String
default_notify_channel = "pgoutbox_pubsub"

unfoldable pub notify_channel : String → List PgPubSubOpt → String
notify_channel channel [] = channel
notify_channel channel (with_notify_channel name ∷ fs) = notify_channel name fs
notify_channel channel (with_notify_logger ∷ fs) = notify_channel channel fs

-- NewPGPubSub: the channel that it listens on and its first state, `none` for the error.
unfoldable pub open_pg_pub_sub : List PgPubSubOpt → Option (String × PgPubSub)
unfolding notify_channel matches_schema_name
open_pg_pub_sub fs =
    let channel = notify_channel default_notify_channel fs in
    if matches_schema_name (codes channel) then some (channel, new_pg_pub_sub) else none

-- `m[k] = v`
abbrev pub put {ℓ} : {V : Type ℓ} → ℕ → V → (ℕ → V) → ℕ → V
put k v m j = if j == k then v else m j

abbrev pub set_entry :
    String → Option (List ℕ) → (String → Option (List ℕ)) → String → Option (List ℕ)
set_entry topic v m t = if t == topic then v else m t

-- `p.subscribers[topic]`, where a missing key reads as the nil map.
abbrev pub entry : Option (List ℕ) → List ℕ
entry none = []
entry (some ids) = ids

-- How a step ends: it does not happen in this state, the process panics, or the state after it.
pub data Outcome : Type 0 where
  disabled panics : Outcome
  goes : PgPubSub → Outcome

pub data Action : Type 0 where
  -- Sub of a topic, and whether connectAndListen works, if it comes to that.
  sub : String → Bool → Action
  -- A goroutine of Sub sees one of its contexts end.
  unsubscribe : ℕ → Action
  -- WaitForNotification returns a notification, with the message that its payload encodes, if any.
  notified : Option PubSubMessage → Action
  -- A consumer receives.
  receive : ℕ → Action
  -- The connection of the listener fails, or a redial ends, well or not.
  connection_fails : Action
  redials : Bool → Action
  -- The context of NewPGPubSub ends.
  shutdown : Action

-- `select { case ch <- delivery: default: }`: `none` is the panic of a send on a closed channel.
unfoldable pub try_send : PubSubMessage → Channel → Option Channel
try_send msg ch =
    if ch.closed
    then none
    else if ltb (length ch.buffer) subscriber_buffer_size
    then some (record ch { buffer = ch.buffer ++ msg ∷ [] })
    else some ch

unfoldable pub deliver : PubSubMessage → List ℕ → (ℕ → Channel) → Option (ℕ → Channel)
unfolding try_send
deliver msg [] channels = some channels
deliver msg (id ∷ ids) channels = elim (try_send msg (channels id)) [
  | none ↦ none
  | some ch ↦ deliver msg ids (put id ch channels)
]

-- dispatch
unfoldable pub dispatch : PubSubMessage → PgPubSub → Outcome
unfolding deliver
dispatch msg p = elim (deliver msg (entry (p.subscribers msg.topic)) p.channels) [
  | none ↦ panics
  | some channels ↦ goes (record p { channels = channels })
]

-- `delete(subs, ch)`, and of the topic with its last channel.
abbrev pub without_channel : ℕ → List ℕ → List ℕ
without_channel id = delete_where (λ j. j == id)

abbrev pub keep_nonempty : List ℕ → Option (List ℕ)
keep_nonempty [] = none
keep_nonempty (id ∷ ids) = some (id ∷ ids)

-- `none` is the panic of closing a closed channel.
unfoldable pub close : Channel → Option Channel
close ch = if ch.closed then none else some (record ch { closed = true })

unfoldable pub remove_subscriber : String → ℕ → PgPubSub → Outcome
unfolding close
remove_subscriber topic id p =
    let ids = entry (p.subscribers topic) in
    if elem id ids
    then (elim (close (p.channels id)) [
      | none ↦ panics
      | some ch ↦ goes (record p {
        subscribers = set_entry topic (keep_nonempty (without_channel id ids)) p.subscribers;
        channels = put id ch p.channels;
      })
    ])
    else goes p

-- The part of Sub after the checks: a new channel, its entry and its goroutine.
unfoldable pub add_subscriber : String → PgPubSub → PgPubSub
add_subscriber topic p = record p {
  subscribers = set_entry topic (some (p.next ∷ entry (p.subscribers topic))) p.subscribers;
  channels = put p.next (record { buffer = []; closed = false }) p.channels;
  next = suc p.next;
  waiting = put p.next (some topic) p.waiting;
}

-- ensureListening: whether Sub goes on, and the listener afterwards.
abbrev pub ensure_listening : Listener → Bool → Bool × Listener
ensure_listening not_started connects = if connects then (true, serving) else (false, not_started)
ensure_listening serving connects = (true, serving)
ensure_listening redialing connects = (true, redialing)
ensure_listening over connects = (true, over)

abbrev subscribe_channel : Bool × Listener → String → PgPubSub → PgPubSub
subscribe_channel (false, l) topic p = record p { listener = l }
subscribe_channel (true, l) topic p = add_subscriber topic (record p { listener = l })

-- A consumer that receives; on an empty channel it blocks, or gets nothing from a closed one.
abbrev pub take_first : ℕ → List PubSubMessage → PgPubSub → Outcome
take_first id [] p = disabled
take_first id (msg ∷ msgs) p =
    goes (record p { channels = put id (record (p.channels id) { buffer = msgs }) p.channels })

abbrev is_serving : Listener → Bool
is_serving serving = true
is_serving _ = false

abbrev is_redialing : Listener → Bool
is_redialing redialing = true
is_redialing _ = false

-- What the listener does after a redial.
abbrev after_redial : Bool → Bool → Listener
after_redial true ended = serving
after_redial false ended = if ended then over else redialing

-- serveConn, with one notification: a malformed payload is dropped.
abbrev serve : Option PubSubMessage → PgPubSub → Outcome
serve none p = goes p
serve (some msg) p = dispatch msg p

unfoldable pub step : Action → PgPubSub → Outcome
unfolding dispatch remove_subscriber add_subscriber
step (sub topic connects) p =
    if topic == "" || p.ended
    then goes p
    else goes (subscribe_channel (ensure_listening p.listener connects) topic p)
step (unsubscribe id) p = elim (p.waiting id) [
  | none ↦ disabled
  | some topic ↦ remove_subscriber topic id (record p { waiting = put id none p.waiting })
]
step (notified payload) p = if is_serving p.listener then serve payload p else disabled
step (receive id) p = take_first id (p.channels id).buffer p
step connection_fails p =
    if is_serving p.listener
    then goes (record p { listener = if p.ended then over else redialing })
    else disabled
step (redials works) p =
    if is_redialing p.listener
    then goes (record p { listener = after_redial works p.ended })
    else disabled
step shutdown p = goes (record p { ended = true })
