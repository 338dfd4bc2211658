-- ===== src/Subscribe/Loop.antt =====
-- The loop of Subscribe, with what it meets on its way as arguments.
pub mod Handover
use pgoutbox.Prelude.{
  ◌≡◌, ◌≢◌, ℕ, ◌&&◌, Bool, true, false, String, Option, none, some, List, [], ◌∷◌, ◌==◌, text_test,
  if◌then◌else◌,
}
use pgoutbox.World.{
  World, Result, ok, err, Error, M, pure, raise, ◌>>=◌, ◌>>◌, attempt, deferred, empty_topic,
  no_flusher, context_ended, exclusive_lease_held, exclusive_lease_required,
}
use pgoutbox.Outbox.{Outbox, Flusher, get_flusher, no_pubsub, pubsub, tx_publisher, PubSubKind}
use pgoutbox.Outbox.Lease.{Wake, wake_up, acquire_topic, release_topic}
use pgoutbox.Subscribe.{
  SubscribeOpt, SubscribeOpts, apply_subscribe_opts, default_subscribe_opts, Meanwhile,
  process_topic_until_empty,
}

-- What the select of Subscribe can be woken by, besides its context: the poll timer, a notification, or
-- the notification channel, closed.
pub data Event : Type 0 where
  polled notified closed : Event

-- One turn of the loop: how long its pass may last and what happens then, the wake-ups of an
-- AcquireTopic in it, whether the context has ended when that fails, the events that come while it
-- waits (after them its context ends), and the clocks and the database of then.
pub record Turn : Type 0 where
  pub rounds : ℕ
  pub meanwhile : Meanwhile
  pub waiting : List Wake
  pub cancelled : Bool
  pub events : List Event
  pub later : Meanwhile

-- isExclusiveLeaseError
unfoldable pub is_exclusive_lease_error : Result (Unit {0}) → Bool
is_exclusive_lease_error (ok _) = false
is_exclusive_lease_error (err exclusive_lease_held) = true
is_exclusive_lease_error (err exclusive_lease_required) = true
is_exclusive_lease_error (err _) = false

abbrev pub after_acquire : Bool → Result (Unit {0}) → M Bool
after_acquire cancelled (ok _) = pure true
after_acquire true (err _) = raise context_ended
after_acquire false (err _) = pure false

-- Whether the loop goes on at once, because a lost lease is held again.
unfoldable pub reacquire : Outbox → SubscribeOpts → String → Turn → Result (Unit {0}) → M Bool
unfolding is_exclusive_lease_error attempt acquire_topic
reacquire o so topic t outcome =
    if so.exclusive && is_exclusive_lease_error outcome
    then (do
      acquired ← attempt (acquire_topic o topic t.waiting)
      after_acquire t.cancelled acquired)
    else pure false

-- The select: whether the notification channel is there afterwards, `none` when the context ends. A
-- channel that is not there is never ready.
unfoldable pub select_event : Bool → List Event → Option Bool
select_event listening [] = none
select_event listening (polled ∷ es) = some listening
select_event true (notified ∷ es) = some true
select_event true (closed ∷ es) = some false
select_event false (notified ∷ es) = select_event false es
select_event false (closed ∷ es) = select_event false es

abbrev pub resume : Option Bool → (Bool → M (Unit {0})) → M (Unit {0})
resume none again = raise context_ended
resume (some listening) again = again listening

abbrev pub resume_later : Bool → Turn → (Bool → M (Unit {0})) → M (Unit {0})
resume_later listening t again w =
    resume (select_event listening t.events) again (wake_up (t.later w) w)

-- The loop of Subscribe, until its context has ended.
unfoldable pub subscribe_loop : Outbox → SubscribeOpts → String → Bool → List Turn → M (Unit {0})
unfolding attempt process_topic_until_empty reacquire select_event
subscribe_loop o so topic listening [] = raise context_ended
subscribe_loop o so topic listening (t ∷ ts) =
    let again = λ (l : Bool). subscribe_loop o so topic l ts in
    do
      outcome ← attempt (process_topic_until_empty o so.process_opts topic t.meanwhile t.rounds)
      held ← reacquire o so topic t outcome
      if held then again listening else resume_later listening t again

-- Without a PubSub there is no channel; otherwise `sub` is what its Sub returns.
abbrev pub listen : PubSubKind → Result (Unit {0}) → (Bool → M (Unit {0})) → M (Unit {0})
listen no_pubsub sub loop = loop false
listen pubsub (ok _) loop = loop true
listen pubsub (err e) loop = raise e
listen tx_publisher (ok _) loop = loop true
listen tx_publisher (err e) loop = raise e

unfoldable pub subscribe_from :
    Outbox → SubscribeOpts → String → Result (Unit {0}) → List Turn → M (Unit {0})
unfolding subscribe_loop
subscribe_from o so topic sub turns =
    listen o.pubsub_kind sub (λ listening. subscribe_loop o so topic listening turns)

unfoldable pub subscribe_with :
    Outbox → SubscribeOpts → String → List Wake → Result (Unit {0}) → List Turn → M (Unit {0})
unfolding subscribe_from acquire_topic release_topic deferred
subscribe_with o so topic waiting sub turns =
    if so.exclusive
    then (do
      acquire_topic o topic waiting
      deferred (release_topic o topic) (subscribe_from o so topic sub turns))
    else subscribe_from o so topic sub turns

abbrev pub checked : Bool → Option Flusher → M (Unit {0}) → M (Unit {0})
checked true flusher m = raise empty_topic
checked false none m = raise no_flusher
checked false (some f) m = m

-- Subscribe
unfoldable pub subscribe :
    Outbox → String → List SubscribeOpt → List Wake → Result (Unit {0}) → List Turn → M (Unit {0})
unfolding subscribe_with apply_subscribe_opts get_flusher
subscribe o topic sopts waiting sub turns =
    checked (topic == "") (get_flusher o topic)
      (subscribe_with o (apply_subscribe_opts default_subscribe_opts sopts) topic waiting sub turns)
