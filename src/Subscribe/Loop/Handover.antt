-- ===== src/Subscribe/Loop/Handover.antt =====
-- How Subscribe ends, and what it leaves to the next subscriber.
use pgoutbox.Prelude.{
  ◌≡◌, ◌≢◌, ◌&&◌, Bool, true, false, String, Option, none, some, List, [], ◌∷◌, ◌==◌, text_test,
  inl, inr, Bool-cases, ap, ◌∙◌, ◌≤◌, elem, number_test, ==-false,
}
use pgoutbox.World.{World, Result, ok, err, M, pure, raise, ◌>>=◌, deferred}
use pgoutbox.World.Rules.{Gives, nest_rule, proceed_rule, if_rule, raise_rule}
use pgoutbox.World.Attempts.{logged-world, attempt_rule}
use pgoutbox.Outbox.{Outbox, Flusher, get_flusher, no_pubsub, pubsub, tx_publisher, PubSubKind}
use pgoutbox.Outbox.Lease.{Wake, acquire_topic, release_topic}
use pgoutbox.Outbox.Lease.{try_acquire_topic_lease}
use pgoutbox.Outbox.Lease.Release.{release_frees}
use pgoutbox.Outbox.Lease.Stopped.{release_topic-unwatched}
use pgoutbox.Db.{Topic}
use pgoutbox.Db.Topics.{find_topic, get_topic_for_update}
use pgoutbox.Subscribe.{SubscribeOpt, SubscribeOpts, apply_subscribe_opts, default_subscribe_opts}
use pgoutbox.Subscribe.Loop.{
  subscribe_loop, subscribe_from, subscribe_with, subscribe, Turn, resume, listen, checked,
  after_acquire, select_event, reacquire, is_exclusive_lease_error,
}

abbrev Fails : Result (Unit {0}) → World → Type 0
Fails r w = r ≢ ok tt

after_acquire-Fails :
    (cancelled : Bool) (r : Result (Unit {0})) (k : Bool → M (Unit {0})) (w : World)
    → ((b : Bool) → Gives (k b) w Fails)
    → Gives (after_acquire cancelled r >>= k) w Fails
unfolding ◌>>=◌ pure raise
after_acquire-Fails cancelled (ok _) k w g = record { at = (g true).at }
after_acquire-Fails true (err _) k w g = record { at = λ e. cc }
after_acquire-Fails false (err _) k w g = record { at = (g false).at }

reacquire-Fails :
    (o : Outbox) (so : SubscribeOpts) (topic : String) (t : Turn) (outcome : Result (Unit {0}))
    (k : Bool → M (Unit {0})) (w : World)
    → ((b : Bool) (v : World) → Gives (k b) v Fails)
    → Gives (reacquire o so topic t outcome >>= k) w Fails
unfolding reacquire ◌>>=◌ pure
reacquire-Fails o so topic t outcome k w g =
    elim (Bool-cases (so.exclusive && is_exclusive_lease_error outcome)) [
      | inl p ↦
          rw (p, reacquire)
            (nest_rule _ k (
              attempt_rule _ _
                (λ r v. record { at = (after_acquire-Fails t.cancelled r k v (λ b. g b v)).at })))
      | inr p ↦ rw (p, reacquire) (record { at = (g false w).at })
    ]

resume-Fails :
    (o : Option Bool) (again : Bool → M (Unit {0})) (w : World)
    → ((b : Bool) → Gives (again b) w Fails)
    → Gives (resume o again) w Fails
resume-Fails none again w g = raise_rule _ (λ e. cc)
resume-Fails (some b) again w g = g b

subscribe_loop-Fails :
    (o : Outbox) (so : SubscribeOpts) (topic : String) (turns : List Turn) (listening : Bool)
    (w : World)
    → Gives (subscribe_loop o so topic listening turns) w Fails
unfolding subscribe_loop
subscribe_loop-Fails o so topic [] listening w = raise_rule _ (λ e. cc)
subscribe_loop-Fails o so topic (t ∷ ts) listening w = attempt_rule _ _ (λ outcome v.
    reacquire-Fails o so topic t outcome _ v (λ held v'.
      if_rule held (λ _. subscribe_loop-Fails o so topic ts listening v')
        (λ _. record {
          at =
              (resume-Fails (select_event listening t.events) _ _
                (λ l. subscribe_loop-Fails o so topic ts l _)).at;
        })))

listen-Fails :
    (kind : PubSubKind) (sub : Result (Unit {0})) (loop : Bool → M (Unit {0})) (w : World)
    → ((b : Bool) → Gives (loop b) w Fails)
    → Gives (listen kind sub loop) w Fails
listen-Fails no_pubsub sub loop w g = g false
listen-Fails pubsub (ok _) loop w g = g true
listen-Fails pubsub (err e) loop w g = raise_rule e (λ p. cc)
listen-Fails tx_publisher (ok _) loop w g = g true
listen-Fails tx_publisher (err e) loop w g = raise_rule e (λ p. cc)

module _ (o : Outbox) (topic : String) (sopts : List SubscribeOpt) (waiting : List Wake)
    (sub : Result (Unit {0})) (turns : List Turn) (w : World) where
  abbrev pub so : SubscribeOpts
  so = apply_subscribe_opts default_subscribe_opts sopts

  subscribe_from-Fails : (v : World) → Gives (subscribe_from o so topic sub turns) v Fails
  unfolding subscribe_from
  subscribe_from-Fails v =
      listen-Fails o.pubsub_kind sub _ v (λ b. subscribe_loop-Fails o so topic turns b v)

  abbrev acquired : Result (Unit {0})
  acquired = (acquire_topic o topic waiting w).0

  abbrev pub holding : World
  holding = (acquire_topic o topic waiting w).1

  abbrev consume : Unit {0} → M (Unit {0})
  consume _ = deferred (release_topic o topic) (subscribe_from o so topic sub turns)

  subscribe_with-Fails : Gives (subscribe_with o so topic waiting sub turns) w Fails
  unfolding subscribe_with deferred ◌>>=◌
  subscribe_with-Fails =
      if_rule so.exclusive
        (λ _. record {
          at =
              proceed_rule Fails acquired holding consume (λ e bad p. cc)
                (λ a fine. record { at = (subscribe_from-Fails holding).at });
        })
        (λ _. subscribe_from-Fails w)

  abbrev whole : M (Unit {0})
  whole = subscribe_with o so topic waiting sub turns

  checked-Fails :
      (nameless : Bool) (flusher : Option Flusher) → Gives (checked nameless flusher whole) w Fails
  checked-Fails true flusher = raise_rule _ (λ e. cc)
  checked-Fails false none = raise_rule _ (λ e. cc)
  checked-Fails false (some f) = subscribe_with-Fails

  -- A call that is not refused at once.
  subscribe-with :
      {f : Flusher}
      → topic ≢ ""
      → get_flusher o topic ≡ some f
      → subscribe o topic sopts waiting sub turns w ≡ subscribe_with o so topic waiting sub turns w
  unfolding subscribe
  subscribe-with named there =
      ap (λ b. checked b (get_flusher o topic) whole w) (==-false topic "" named)
      ∙ ap (λ flusher. checked false flusher whole w) there

  -- Subscribe never returns nil, whatever its options, and whatever the database answers.
  pub subscribe_never_ok : (subscribe o topic sopts waiting sub turns w).0 ≢ ok tt
  unfolding subscribe
  subscribe_never_ok = (checked-Fails (topic == "") (get_flusher o topic)).at

  subscribe_with-last :
      so.exclusive ≡ true
      → acquired ≡ ok tt
      → (subscribe_with o so topic waiting sub turns w).1
        ≡ (release_topic o topic (subscribe_from o so topic sub turns holding).1).1
  unfolding subscribe_with deferred ◌>>=◌
  subscribe_with-last exclusive fine =
      rw exclusive (rw (fine, subscribe_with) (logged-world (release_topic o topic) _))

  module _ (f : Flusher) (named : topic ≢ "") (there : get_flusher o topic ≡ some f)
      (exclusive : so.exclusive ≡ true) where
    subscribe-last :
        acquired ≡ ok tt
        → (subscribe o topic sopts waiting sub turns w).1
          ≡ (release_topic o topic (subscribe_from o so topic sub turns holding).1).1
    subscribe-last fine =
        ap (λ (p : Result (Unit {0}) × World). p.1) (subscribe-with named there)
        ∙ subscribe_with-last exclusive fine

    -- An exclusive Subscribe that got its lease ends, however its loop ends, by releasing it: no
    -- watcher of the topic is left, and if at the end of the loop it still held the lease and the
    -- release succeeded, another instance has the lease with its next attempt, as long as the database
    -- answers it, the row reads as it was left and the clock is not behind.
    pub subscribe_hands_over :
        acquired ≡ ok tt
        → let v = (subscribe_from o so topic sub turns holding).1 in
          let after = (subscribe o topic sopts waiting sub turns w).1 in
          (elem topic after.watchers ≡ false)
          × ((b : Outbox) (t : Topic) (x : World)
              → find_topic topic v.db.topics ≡ some t
              → t.exclusive_consumer_id ≡ some o.instance_id
              → (release_topic o topic v).0 ≡ ok tt
              → get_topic_for_update topic x.db ≡ get_topic_for_update topic after.db
              → v.now ≤ x.now
              → (try_acquire_topic_lease b topic (record x { answers = [] })).0 ≡ ok true)
    subscribe_hands_over fine =
        let v = (subscribe_from o so topic sub turns holding).1 in
        let last = subscribe-last fine in
        (
          rw last (release_topic-unwatched o topic v named),
          λ b t x there mine released same later.
              release_frees o b topic v x t there mine released
                (same ∙ ap (λ (y : World). get_topic_for_update topic y.db) last) later,
        )
