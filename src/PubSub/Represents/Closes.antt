-- ===== src/PubSub/Represents/Closes.antt =====
-- A subscription that ends closes its mailbox, and a consumer takes from one.
use mathlib.Core.List.{filter-sublist}
use mathlib.Core.List.Nodup
use mathlib.Core.Option
use pgoutbox.Prelude.{
  ℕ, ◌≤◌, String, ◌≡◌, ◌≢◌, refl, sym, ap, ◌∙◌, true, false, not, ◌&&◌, Option, none, some, List,
  [], ◌∷◌, length, elem, number_test, text_test, ◌==◌, ==_refl, ==-false, ne_of_false, nat_beq_iff,
  Bool-cases, inl, inr, arith,
}
use pgoutbox.PubSub.{
  PgPubSub, PubSubMessage, Channel, remove_subscriber, without_channel, keep_nonempty, take_first,
  close, entry, set_entry, put, subscriber_buffer_size,
}
use pgoutbox.PubSub.Spec.{Mailbox, Spec, is_open_for, close_box, take_box}
use pgoutbox.PubSub.Represents.{Represents, Simulated, channel_of, goroutine_of}

pub elem-without :
    (j id : ℕ) (ids : List ℕ) → elem j (without_channel id ids) ≡ (not (j == id) && elem j ids)
unfolding elem
elem-without j id [] = ground arith
elem-without j id (x ∷ ids) = ground (arith, elem-without j id ids)

pub entry-keep : (ids : List ℕ) → entry (keep_nonempty ids) ≡ ids
entry-keep [] = refl
entry-keep (id ∷ ids) = refl

keep-ne : (ids : List ℕ) → keep_nonempty ids ≢ some []
keep-ne [] e = cc
keep-ne (id ∷ ids) e = cc

none_ne {ℓ} : {A : Type ℓ} {a : A} → none ≡ some a → ⊥
none_ne e = cc

-- The mailbox whose goroutine waits is open.
pub waiting_mailbox :
    (topic : String) (x : Option Mailbox)
    → goroutine_of x ≡ some topic
    → (m : Mailbox) × (x ≡ some m) × (m.open_yet ≡ true) × (m.topic ≡ topic)
waiting_mailbox topic none h = cc
waiting_mailbox topic (some m) h = elim (Bool-cases m.open_yet) [
  | inl p ↦ (m, refl, p, Option.some-injective _ _ (rw p at h))
  | inr p ↦ absurd (none_ne (rw p at h))
]

module _ (id : ℕ) (m : Mailbox) (p : PgPubSub) (s : Spec) (r : Represents p s) (at : s id ≡ some m)
    (live : m.open_yet ≡ true) where
  abbrev closed_box : Spec
  closed_box = put id (some (record m { open_yet = false })) s

  abbrev ids : List ℕ
  ids = entry (p.subscribers m.topic)

  listed : elem id ids ≡ true
  listed = r.registered m.topic id ∙ rw at (rw live (==_refl m.topic))

  abbrev removed : PgPubSub
  removed = record p {
    waiting = put id none p.waiting;
    subscribers = set_entry m.topic (keep_nonempty (without_channel id ids)) p.subscribers;
    channels = put id (record (p.channels id) { closed = true }) p.channels;
  }

  removed-registered :
      (t : String) (j : ℕ) → elem j (entry (removed.subscribers t)) ≡ is_open_for t (closed_box j)
  removed-registered t j = elim (Bool-cases (t == m.topic)) [
    | inl e ↦
        let same : t ≡ m.topic = (text_test.same_iff t m.topic).0 e in
        elim (Bool-cases (j == id)) [
          | inl k ↦
              rw e (
                rw k (rw (entry-keep (without_channel id ids)) (elem-without j id ids ∙ rw k refl)))
          | inr k ↦ rw e (
              rw k (
                rw (entry-keep (without_channel id ids))
                  (elem-without j id ids ∙ rw k (rw same (r.registered m.topic j)))))
        ]
    | inr e ↦ elim (Bool-cases (j == id)) [
      | inl k ↦
          let this : j ≡ id = (nat_beq_iff j id).0 k in
          rw e (
            rw k (
              rw this (
                r.registered t id
                ∙ rw at (rw live (==-false m.topic t (λ q. ne_of_false t m.topic e (sym q)))))))
      | inr k ↦ rw e (rw k (r.registered t j))
    ]
  ]

  removed-Represents : Represents removed closed_box
  removed-Represents = record {
    fresh = λ j h. elim (Bool-cases (j == id)) [
      | inl k ↦
          let this : j ≡ id = (nat_beq_iff j id).0 k in
          absurd (none_ne (sym (r.fresh id (rw (← this) h)) ∙ at))
      | inr k ↦ rw k (r.fresh j h)
    ];
    holds = λ j. elim (Bool-cases (j == id)) [
      | inl k ↦ rw k (rw (r.holds id) (rw at refl))
      | inr k ↦ rw k (r.holds j)
    ];
    registered = removed-registered;
    waits = λ j. elim (Bool-cases (j == id)) [ inl k ↦ rw k refl | inr k ↦ rw k (r.waits j) ];
    distinct = λ t. elim (Bool-cases (t == m.topic)) [
      | inl e ↦ rw e (
          rw (entry-keep (without_channel id ids))
            (Nodup.sublist (filter-sublist _) (r.distinct m.topic)))
      | inr e ↦ rw e (r.distinct t)
    ];
    nonempty = λ t h. elim (Bool-cases (t == m.topic)) [
      | inl e ↦ keep-ne _ (rw e at h)
      | inr e ↦ r.nonempty t (rw e at h)
    ];
    bounded = λ j. elim (Bool-cases (j == id)) [
      | inl k ↦ rw k (r.bounded id)
      | inr k ↦ rw k (r.bounded j)
    ];
  }

  remove-Simulated :
      Simulated p
        (put id (close_box (s id)) s)
        (remove_subscriber m.topic id (record p { waiting = put id none p.waiting }))
  unfolding remove_subscriber close
  remove-Simulated =
      let opened : (p.channels id).closed ≡ false =
        ap (λ (ch : Channel). ch.closed) (r.holds id) ∙ rw at (rw live refl) in
      rw (listed, remove_subscriber)
        (rw (opened, close) (rw at (removed-Represents, refl, refl, refl)))

pub unsubscribe-Simulated :
    (id : ℕ) (topic : String) (p : PgPubSub) (s : Spec)
    → Represents p s
    → p.waiting id ≡ some topic
    → Simulated p
        (put id (close_box (s id)) s)
        (remove_subscriber topic id (record p { waiting = put id none p.waiting }))
unsubscribe-Simulated id topic p s r h =
    let (m, at, live, same) = waiting_mailbox topic (s id) (sym (r.waits id) ∙ h) in
    rw (← same) (remove-Simulated id m p s r at live)

module _ (id : ℕ) (m : Mailbox) (msg : PubSubMessage) (msgs : List PubSubMessage) (p : PgPubSub)
    (s : Spec) (r : Represents p s) (at : s id ≡ some m) (items : m.items ≡ msg ∷ msgs) where
  taken-Represents :
      Represents
        (record p { channels = put id (record (p.channels id) { buffer = msgs }) p.channels })
        (put id (some (record m { items = msgs })) s)
  taken-Represents = record {
    fresh = λ j h. elim (Bool-cases (j == id)) [
      | inl k ↦
          let this : j ≡ id = (nat_beq_iff j id).0 k in
          absurd (none_ne (sym (r.fresh id (rw (← this) h)) ∙ at))
      | inr k ↦ rw k (r.fresh j h)
    ];
    holds = λ j. elim (Bool-cases (j == id)) [
      | inl k ↦ rw k (rw (r.holds id) (rw at refl))
      | inr k ↦ rw k (r.holds j)
    ];
    registered = λ t j. elim (Bool-cases (j == id)) [
      | inl k ↦
          let this : j ≡ id = (nat_beq_iff j id).0 k in
          rw k (rw this (r.registered t id ∙ ap (is_open_for t) at))
      | inr k ↦ rw k (r.registered t j)
    ];
    waits = λ j. elim (Bool-cases (j == id)) [
      | inl k ↦
          let this : j ≡ id = (nat_beq_iff j id).0 k in
          rw k (rw this (r.waits id ∙ ap goroutine_of at))
      | inr k ↦ rw k (r.waits j)
    ];
    distinct = r.distinct;
    nonempty = r.nonempty;
    bounded = λ j. elim (Bool-cases (j == id)) [
      | inl k ↦ rw k (
          shorter (r.bounded id)
            (ap (λ (ch : Channel). ch.buffer) (r.holds id ∙ ap channel_of at) ∙ items))
      | inr k ↦ rw k (r.bounded j)
    ];
  }
    where
      shorter :
          {buffer : List PubSubMessage}
          → length buffer ≤ subscriber_buffer_size
          → buffer ≡ msg ∷ msgs
          → length msgs ≤ subscriber_buffer_size
      shorter h e = let h' : length (msg ∷ msgs) ≤ subscriber_buffer_size = rw e at h in omega arith

none_left :
    {x : PubSubMessage} {xs : List PubSubMessage} → ◌≡◌ {A = List PubSubMessage} [] (x ∷ xs) → ⊥
none_left e = cc

pub take-Simulated :
    (id : ℕ) (p : PgPubSub) (s : Spec)
    → Represents p s
    → Simulated p (put id (take_box (s id)) s) (take_first id (p.channels id).buffer p)
take-Simulated id p s r = by_buffer (p.channels id).buffer (s id) refl refl
  where
    by_buffer :
        (items : List PubSubMessage) (x : Option Mailbox)
        → (p.channels id).buffer ≡ items
        → s id ≡ x
        → Simulated p (put id (take_box x) s) (take_first id items p)
    by_buffer [] x e at = tt
    by_buffer (msg ∷ msgs) none e at =
        absurd
          (none_left (sym (ap (λ (ch : Channel). ch.buffer) (r.holds id ∙ ap channel_of at)) ∙ e))
    by_buffer (msg ∷ msgs) (some m) e at =
        let items : m.items ≡ msg ∷ msgs =
          sym (ap (λ (ch : Channel). ch.buffer) (r.holds id ∙ ap channel_of at)) ∙ e in
        rw items (taken-Represents id m msg msgs p s r at items, refl, refl, refl)
