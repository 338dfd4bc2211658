-- ===== src/Outbox/Process/Batch.antt =====
-- Which messages AcquireMessagesByTopic locks.
use mathlib.Core.List.{mem-filter, mem-append, Pairwise-append, filter-sublist}
use mathlib.Core.List.Pairwise
use mathlib.Core.Logic.Or
use native.Mathlib.Bridge.{le_prop}
use pgoutbox.Prelude.{
  ℕ, zero, suc, refl, ap, ◌≤◌, ◌<◌, String, ◌≡◌, Bool, false, not, some, List, [], ◌∷◌, Mem, arith,
  is_true, length, take, drop, length-take, take-append-drop, ◌==◌, text_test, number_test,
}
use pgoutbox.Sql.{select}
use pgoutbox.Sql.Order.{Ascending, order_by, order_by-Ascending, mem-order_by}
use pgoutbox.Db.{Db, Message}
use pgoutbox.Db.Messages.{acquire_messages_by_topic}

module _ {A : Type 0} (key : A → ℕ) where
  -- What comes after the first rows of an ordered list is not below them.
  take_least :
      (n : ℕ) (xs : List A) {a b : A}
      → Ascending key xs
      → Mem a (take n xs)
      → Mem b xs
      → ¬ Mem b (take n xs)
      → key a ≤ key b
  take_least n xs {a} {b} up first stored late =
      let split =
        (Pairwise-append {R = λ (x y : A). key x ≤ key y} (λ _ _. le_prop) {l₁ = take n xs}
            {l₂ = drop n xs}).0
          (rw (take-append-drop n xs) up) in
      Or.elim le_prop (mem-append.0 (rw (take-append-drop n xs) stored))
        (λ early. absurd (late early)) (λ k. split.2 a first b k)

all_taken : {A : Type 0} (n : ℕ) (xs : List A) → length (take n xs) < n → take n xs ≡ xs
all_taken zero xs h = absurd (omega arith)
all_taken (suc n) [] h = refl
all_taken (suc n) (x ∷ xs) h = ap (◌∷◌ x) (all_taken n xs (omega arith))

module _ (locked : ℕ → Bool) (topic : String) (n : ℕ) (db : Db) where
  abbrev eligible : List Message
  eligible =
      select (λ m. not (locked m.id))
        (order_by (λ m. m.id) (select (λ m. m.topic == topic) db.messages))

  eligible-Ascending : Ascending (λ (m : Message). m.id) eligible
  eligible-Ascending = Pairwise.sublist (λ _ _. le_prop) (filter-sublist _) (order_by-Ascending _ _)

  mem-eligible :
      (m : Message) → Mem m db.messages → m.topic ≡ topic → locked m.id ≡ false → Mem m eligible
  mem-eligible m stored e free = (mem-filter (λ (x : Message). is_true (not (locked x.id)))).1 (
    (mem-order_by _ _).1 (
        (mem-filter (λ (x : Message). is_true (x.topic == topic))).1
          (stored, (text_test.same_iff m.topic topic).1 e)),
    ap not free,
  )

  -- The locked batch has at most the asked number of messages, and no message of the topic that it
  -- leaves behind unlocked is older (by id) than one that it takes.
  pub acquire_oldest_first :
      (length (acquire_messages_by_topic locked topic (some n) db) ≤ n)
      × ((a b : Message)
          → Mem a (acquire_messages_by_topic locked topic (some n) db)
          → Mem b db.messages
          → b.topic ≡ topic
          → locked b.id ≡ false
          → ¬ Mem b (acquire_messages_by_topic locked topic (some n) db)
          → a.id ≤ b.id)
  unfolding acquire_messages_by_topic
  acquire_oldest_first = (
    omega (arith, length-take n eligible),
    λ a b first stored e free late.
        take_least (λ (m : Message). m.id) n eligible eligible-Ascending first
          (mem-eligible b stored e free) late,
  )

  -- A batch that is not full holds every message of the topic that no other transaction has locked.
  pub acquire_short_batch :
      length (acquire_messages_by_topic locked topic (some n) db) < n
      → (m : Message) → Mem m db.messages
      → m.topic ≡ topic
      → locked m.id ≡ false
      → Mem m (acquire_messages_by_topic locked topic (some n) db)
  unfolding acquire_messages_by_topic
  acquire_short_batch short m stored e free =
      rw (all_taken n eligible short) (mem-eligible m stored e free)
