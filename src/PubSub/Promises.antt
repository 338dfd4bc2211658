-- ===== src/PubSub/Promises.antt =====
-- What the subscribers of a pgPubSub can rely on.
use pgoutbox.Prelude.{
  ℕ, ◌≤◌, String, ◌≡◌, ◌≢◌, refl, sym, ap, ◌∙◌, true, false, Option, none, some, List, [], ◌∷◌,
  length, elem, number_test, text_test, arith, if◌then◌else◌, ==_refl, Bool-cases, inl, inr,
}
use pgoutbox.PubSub.{
  PgPubSub, PubSubMessage, Channel, unsubscribe, step, goes, dispatch, entry,
  subscriber_buffer_size, remove_subscriber, close, without_channel, put, set_entry, keep_nonempty,
}
use pgoutbox.PubSub.Spec.{Spec, is_open_for, Mailbox}
use pgoutbox.PubSub.Deliver.{sent, deliver_lem}
use pgoutbox.PubSub.Represents.{Represents, goroutine_of, channel_of}
use pgoutbox.PubSub.Represents.Closes.{elem-without, entry-keep, waiting_mailbox}
use pgoutbox.PubSub.Refines.{Reach, history, pub_sub_refines}

false_ne : false ≡ true → ⊥
false_ne e = cc

none_ne {ℓ} : {A : Type ℓ} {a : A} → none ≡ some a → ⊥
none_ne e = cc

listed_first : (id : ℕ) (ids : List ℕ) → elem id (id ∷ ids) ≡ true
unfolding elem
listed_first id ids = rw (==_refl id) refl

module _ (p : PgPubSub) (reach : Reach p) where
  abbrev s : Spec
  s = (history reach).boxes

  abbrev r : Represents p s
  r = (pub_sub_refines p reach).represents

  registered-open :
      (topic : String) (id : ℕ)
      → elem id (entry (p.subscribers topic)) ≡ true
      → (p.channels id).closed ≡ false
  registered-open topic id h =
      ap (λ (ch : Channel). ch.closed) (r.holds id) ∙ live (s id) (sym (r.registered topic id) ∙ h)
    where
      live : (x : Option Mailbox) → is_open_for topic x ≡ true → (channel_of x).closed ≡ false
      live none e = cc
      live (some m) e = ground arith

  goroutine :
      (topic : String) (x : Option Mailbox)
      → is_open_for topic x ≡ true
      → goroutine_of x ≡ some topic
  goroutine topic none e = cc
  goroutine topic (some m) e = elim (Bool-cases m.open_yet) [
    | inl live ↦ rw live (ap some ((text_test.same_iff m.topic topic).0 (rw live at e)))
    | inr gone ↦ absurd (false_ne (rw gone at e))
  ]

  registered-waits :
      (topic : String) (id : ℕ)
      → elem id (entry (p.subscribers topic)) ≡ true
      → p.waiting id ≡ some topic
  registered-waits topic id h =
      r.waits id ∙ goroutine topic (s id) (sym (r.registered topic id) ∙ h)

  -- In every reachable state no buffer holds more than 16 messages, every registered channel is open and
  -- its goroutine, which will unsubscribe it, still runs, and no topic is left in the map without a
  -- channel.
  pub pub_sub_invariant :
      ((id : ℕ) → length (p.channels id).buffer ≤ subscriber_buffer_size)
      × ((topic : String) (id : ℕ)
          → elem id (entry (p.subscribers topic)) ≡ true
          → ((p.channels id).closed ≡ false) × (p.waiting id ≡ some topic))
      × ((topic : String) → p.subscribers topic ≢ some [])
  pub_sub_invariant = (
    r.bounded,
    (λ topic id h. (registered-open topic id h, registered-waits topic id h)),
    r.nonempty,
  )

  -- In a reachable state, dispatch gives each channel of the message's topic one copy of it, at the end
  -- of its buffer, unless that is full, and leaves all other channels, and the map, as they are.
  pub dispatch_delivers :
      (msg : PubSubMessage)
      → (p' : PgPubSub) × (dispatch msg p ≡ goes p')
        × ((id : ℕ)
            → p'.channels id ≡ (
                if elem id (entry (p.subscribers msg.topic))
                then sent msg (p.channels id)
                else p.channels id))
        × (p'.subscribers ≡ p.subscribers)
  unfolding dispatch
  dispatch_delivers msg =
      let (after, done, at) =
        deliver_lem msg (entry (p.subscribers msg.topic)) p.channels (r.distinct msg.topic)
          (registered-open msg.topic) in
      (record p { channels = after }, rw (done, dispatch) refl, at, refl)

  -- Once the goroutines of all subscriptions are done, the map is empty.
  pub nothing_left :
      ((id : ℕ) → p.waiting id ≡ none) → (topic : String) → p.subscribers topic ≡ none
  nothing_left done topic = by_entry (p.subscribers topic) refl
    where
      by_entry : (e : Option (List ℕ)) → p.subscribers topic ≡ e → e ≡ none
      by_entry none h = refl
      by_entry (some []) h = absurd (r.nonempty topic h)
      by_entry (some (id ∷ ids)) h =
          absurd (none_ne (sym (done id) ∙ registered-waits topic id (rw h (listed_first id ids))))

  -- A goroutine of Sub that sees its context end can always go on: it closes its channel, which keeps
  -- what it holds, and nobody will send to it any more.
  pub unsubscribe_closes :
      (topic : String) (id : ℕ)
      → p.waiting id ≡ some topic
      → (p' : PgPubSub) × (step (unsubscribe id) p ≡ goes p')
        × (p'.channels id ≡ record { buffer = (p.channels id).buffer; closed = true })
        × (elem id (entry (p'.subscribers topic)) ≡ false)
        × (p'.waiting id ≡ none)
  unfolding step remove_subscriber close
  unsubscribe_closes topic id h =
      let (m, at, live, same) = waiting_mailbox topic (s id) (sym (r.waits id) ∙ h) in
      let listed : elem id (entry (p.subscribers topic)) ≡ true =
        r.registered topic id ∙ rw at (rw (live, same) (==_refl topic)) in
      let ids = entry (p.subscribers topic) in
      (
        record p {
          subscribers = set_entry topic (keep_nonempty (without_channel id ids)) p.subscribers;
          channels = put id (record (p.channels id) { closed = true }) p.channels;
          waiting = put id none p.waiting;
        },
        rw (h, step)
            (rw (listed, remove_subscriber) (rw (registered-open topic id listed, close) refl)),
        rw (==_refl id) refl,
        rw (==_refl topic) (
            rw (entry-keep (without_channel id ids))
              (elem-without id id ids ∙ rw (==_refl id) refl)),
        rw (==_refl id) refl,
      )
