-- ===== src/PubSub/Represents/Posts.antt =====
-- A dispatched message is posted to the mailboxes of its topic.
use pgoutbox.Prelude.{
  ◌≤◌, String, ◌≡◌, refl, sym, ap, ◌∙◌, Bool, true, false, ◌&&◌, Option, none, some, List, [], ◌∷◌,
  length, length-append, elem, number_test, text_test, ◌==◌, Bool-cases, inl, inr, arith,
  if◌then◌else◌,
}
use pgoutbox.PubSub.{PgPubSub, PubSubMessage, Channel, dispatch, entry, subscriber_buffer_size}
use pgoutbox.PubSub.Spec.{Mailbox, Spec, is_open_for, post, add_bounded}
use pgoutbox.PubSub.Deliver.{sent, deliver_lem}
use pgoutbox.PubSub.Represents.{Represents, Simulated, channel_of, goroutine_of}

module _ (msg : PubSubMessage) where
  is_open_for-post :
      (topic : String) (x : Option Mailbox) → is_open_for topic (post msg x) ≡ is_open_for topic x
  is_open_for-post topic none = refl
  is_open_for-post topic (some m) = elim (Bool-cases (m.open_yet && (m.topic == msg.topic))) [
    | inl p ↦ rw p refl
    | inr p ↦ rw p refl
  ]

  goroutine_of-post : (x : Option Mailbox) → goroutine_of (post msg x) ≡ goroutine_of x
  goroutine_of-post none = refl
  goroutine_of-post (some m) = elim (Bool-cases (m.open_yet && (m.topic == msg.topic))) [
    | inl p ↦ rw p refl
    | inr p ↦ rw p refl
  ]

  channel_of-post :
      (x : Option Mailbox)
      → (if is_open_for msg.topic x then sent msg (channel_of x) else channel_of x)
        ≡ channel_of (post msg x)
  channel_of-post none = refl
  channel_of-post (some m) = elim (Bool-cases (m.open_yet && (m.topic == msg.topic))) [
    | inl p ↦ rw p refl
    | inr p ↦ rw p refl
  ]

  pub open_channel :
      (x : Option Mailbox) → is_open_for msg.topic x ≡ true → (channel_of x).closed ≡ false
  open_channel none h = cc
  open_channel (some m) h = ground arith

  add_bounded_le :
      (items : List PubSubMessage)
      → length items ≤ subscriber_buffer_size
      → length (add_bounded msg items) ≤ subscriber_buffer_size
  add_bounded_le items h = ground (arith, length-append items (msg ∷ []))

  sent_le :
      (b : Bool) (ch : Channel)
      → length ch.buffer ≤ subscriber_buffer_size
      → length (if b then sent msg ch else ch).buffer ≤ subscriber_buffer_size
  sent_le true ch h = add_bounded_le ch.buffer h
  sent_le false ch h = h

  pub dispatch-Simulated :
      (p : PgPubSub) (s : Spec)
      → Represents p s
      → Simulated p (λ id. post msg (s id)) (dispatch msg p)
  unfolding dispatch
  dispatch-Simulated p s r =
      let ids = entry (p.subscribers msg.topic) in
      let (after, done, at) = deliver_lem msg ids p.channels (r.distinct msg.topic) (λ id h.
        ap (λ (ch : Channel). ch.closed) (r.holds id)
        ∙ open_channel (s id) (sym (r.registered msg.topic id) ∙ h)) in
      rw (done, dispatch)
        (
          record {
            fresh = λ id h. ap (post msg) (r.fresh id h);
            holds = λ id.
                at id ∙ (rw (r.registered msg.topic id) (rw (r.holds id) (channel_of-post (s id))));
            registered = λ t id. r.registered t id ∙ sym (is_open_for-post t (s id));
            waits = λ id. r.waits id ∙ sym (goroutine_of-post (s id));
            distinct = r.distinct;
            nonempty = r.nonempty;
            bounded = λ id. rw (at id) (sent_le (elem id ids) (p.channels id) (r.bounded id));
          },
          refl,
          refl,
          refl,
        )
