-- ===== src/PubSub/Represents/Opens.antt =====
-- A new subscription opens a mailbox.
use mathlib.Core.List.{Nodup-cons}
use pgoutbox.Prelude.{
  ℕ, String, ◌≡◌, refl, sym, ap, ◌∙◌, Bool, true, false, Option, some, List, [], ◌∷◌, elem,
  elem_of_mem, number_test, text_test, ◌==◌, ==_refl, ==-false, ne_of_false, nat_beq_iff,
  Bool-cases, inl, inr, arith,
}
use pgoutbox.PubSub.{PgPubSub, add_subscriber, entry, put}
use pgoutbox.PubSub.Spec.{Mailbox, Spec, is_open_for}
use pgoutbox.PubSub.Represents.{Represents}

some_cons_ne : {id : ℕ} {ids : List ℕ} → ◌≡◌ {A = Option (List ℕ)} (some (id ∷ ids)) (some []) → ⊥
some_cons_ne e = cc

unlisted : {b : Bool} → b ≡ false → b ≡ true → ⊥
unlisted p q = cc

module _ (topic : String) (p : PgPubSub) (s : Spec) (r : Represents p s) where
  abbrev new : Mailbox
  new = record { topic = topic; items = []; open_yet = true }

  abbrev opened : Spec
  opened = put p.next (some new) s

  next_unused : (t : String) → elem p.next (entry (p.subscribers t)) ≡ false
  next_unused t = r.registered t p.next ∙ ap (is_open_for t) (r.fresh p.next (omega arith))

  opened-registered :
      (t : String) (id : ℕ)
      → elem id (entry ((add_subscriber topic p).subscribers t)) ≡ is_open_for t (opened id)
  unfolding add_subscriber elem
  opened-registered t id = elim (Bool-cases (t == topic)) [
    | inl e ↦
        let same : t ≡ topic = (text_test.same_iff t topic).0 e in
        elim (Bool-cases (id == p.next)) [
          | inl k ↦ rw e (rw k (sym (rw same (==_refl topic))))
          | inr k ↦ rw e (rw k (rw same (r.registered topic id)))
        ]
    | inr e ↦ elim (Bool-cases (id == p.next)) [
      | inl k ↦
          let first : id ≡ p.next = (nat_beq_iff id p.next).0 k in
          rw e (
            rw k (
              rw first
                (next_unused t ∙ sym (==-false topic t (λ q. ne_of_false t topic e (sym q))))))
      | inr k ↦ rw e (rw k (r.registered t id))
    ]
  ]

  pub add_subscriber-Represents : Represents (add_subscriber topic p) opened
  unfolding add_subscriber
  add_subscriber-Represents = record {
    fresh = λ id h.
        let other : (id == p.next) ≡ false = ground arith in rw other (r.fresh id (omega arith));
    holds =
        λ id. elim (Bool-cases (id == p.next)) [ inl k ↦ rw k refl | inr k ↦ rw k (r.holds id) ];
    registered = opened-registered;
    waits =
        λ id. elim (Bool-cases (id == p.next)) [ inl k ↦ rw k refl | inr k ↦ rw k (r.waits id) ];
    distinct = λ t. elim (Bool-cases (t == topic)) [
      | inl e ↦
          rw e
            (Nodup-cons.1 (λ m. unlisted (next_unused topic) (elem_of_mem _ m), r.distinct topic))
      | inr e ↦ rw e (r.distinct t)
    ];
    nonempty = λ t h. elim (Bool-cases (t == topic)) [
      | inl e ↦ some_cons_ne (rw e at h)
      | inr e ↦ r.nonempty t (rw e at h)
    ];
    bounded = λ id. elim (Bool-cases (id == p.next)) [
      | inl k ↦ rw k (omega arith)
      | inr k ↦ rw k (r.bounded id)
    ];
  }
