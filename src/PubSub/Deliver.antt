-- ===== src/PubSub/Deliver.antt =====
-- What dispatch does to the channels: each subscriber of the topic gets the message once.
use mathlib.Core.List.{Nodup-cons}
use pgoutbox.Prelude.{
  ℕ, ◌≡◌, refl, true, false, some, List, [], ◌∷◌, Nodup, Mem, nat_beq_iff, elem, mem_of_elem,
  ==_refl, Bool-cases, inl, inr, ◌==◌, number_test, if◌then◌else◌, arith,
}
use pgoutbox.PubSub.{PubSubMessage, Channel, try_send, deliver, put}
use pgoutbox.PubSub.Spec.{add_bounded}

abbrev pub sent : PubSubMessage → Channel → Channel
sent msg ch = record ch { buffer = add_bounded msg ch.buffer }

try_send-open :
    (msg : PubSubMessage) (ch : Channel) → ch.closed ≡ false → try_send msg ch ≡ some (sent msg ch)
unfolding try_send
try_send-open msg ch h = ground arith

pub not_elem : {id : ℕ} (ids : List ℕ) → ¬ Mem id ids → elem id ids ≡ false
not_elem {id} ids absent = elim (Bool-cases (elem id ids)) [
  | inl p ↦ absurd (absent (mem_of_elem id ids p))
  | inr p ↦ p
]

pub deliver_lem :
    (msg : PubSubMessage) (ids : List ℕ) (channels : ℕ → Channel)
    → Nodup ids
    → ((id : ℕ) → elem id ids ≡ true → (channels id).closed ≡ false)
    → (after : (ℕ → Channel)) × (deliver msg ids channels ≡ some after)
      × ((j : ℕ) → after j ≡ (if elem j ids then sent msg (channels j) else channels j))
unfolding deliver elem
deliver_lem msg [] channels u open_all = (channels, refl, λ j. refl)
deliver_lem msg (id ∷ ids) channels u open_all =
    let (after, done, at) =
      deliver_lem msg ids (put id (sent msg (channels id)) channels) (Nodup-cons.0 u).1
        still_open in
    (
      after,
      rw (try_send-open msg (channels id) (open_all id (rw (==_refl id) refl)), deliver) done,
      λ j. once j (after j) (at j),
    )
  where
    still_open :
        (j : ℕ) → elem j ids ≡ true → (put id (sent msg (channels id)) channels j).closed ≡ false
    still_open j h = elim (Bool-cases (j == id)) [
      | inl p ↦ rw p (open_all id (rw (==_refl id) refl))
      | inr p ↦ rw p (open_all j (rw (p, h) refl))
    ]

    once :
        (j : ℕ) (ch : Channel)
        → ch ≡ (
            if elem j ids
            then sent msg (put id (sent msg (channels id)) channels j)
            else put id (sent msg (channels id)) channels j)
        → ch ≡ (if elem j (id ∷ ids) then sent msg (channels j) else channels j)
    once j ch h = elim (Bool-cases (j == id)) [
      | inl p ↦
          let same : j ≡ id = (nat_beq_iff j id).0 p in
          let absent_j : elem j ids ≡ false = rw same (not_elem ids (Nodup-cons.0 u).0) in
          let first : ch ≡ sent msg (channels id) = rw (absent_j, p) at h in rw p (rw same first)
      | inr p ↦ rw p (rw p at h)
    ]
