-- ===== src/Outbox/Process/Delivery.antt =====
-- What ProcessMessages promises of messages: none leaves undelivered, and success removes the batch.
use mathlib.Core.List.{
  dec_mem, not-mem-nil, mem-filter, mem-map, mem-map_of_mem, mem-append_left, mem-cast,
}
use mathlib.Core.HLevel.{⊥_prop}
use mathlib.Core.Logic.{∥∥₁_elim, ∥∥₁_map}
use mathlib.Mathlib.Data.List.Nodup.{inj_on_of_Nodup-map}
use native.Mathlib.Decide.{ℕ_discrete}
use pgoutbox.Prelude.{
  ℕ, String, ◌≡◌, ◌↔◌, inl, inr, refl, sym, ◌∙◌, Bool, true, false, not, some, List, [], ◌∷◌, ◌++◌,
  map, Mem, Nodup, arith, is_true, take, elem, mem_of_elem, elem_of_mem, String-set,
  String-discrete, take-append-drop, ◌&&◌, ==_refl, ◌==◌, text_test, number_test,
}
use pgoutbox.Sql.Order.{mem-order_by}
use pgoutbox.Db.{Db, Message, AppRow}
use pgoutbox.Db.Messages.{acquire_messages_by_topic, delete_messages_by_ids}
use pgoutbox.Db.Topics.{bump_topic_activity_if_stale, get_topic_for_update}
use pgoutbox.World.{World, Error, Result, ok, err}
use pgoutbox.World.Rules.{HasLost}
use pgoutbox.Outbox.Access.{check_row}
use pgoutbox.Outbox.{Outbox, Flusher}
use pgoutbox.Outbox.Process.{ProcessOpt, process_messages, apply_process_opts, default_batch_size}
use pgoutbox.Outbox.Process.Atomic.{
  after_batch, Ends, stopped, idle, undone, done, process_messages-Ends, size_of,
}

Message-set : IsSet Message
Message-set = hlevel String-set

mem_of_mem-take {ℓ} : {A : Type ℓ} {a : A} (n : ℕ) (xs : List A) → Mem a (take n xs) → Mem a xs
mem_of_mem-take n xs m = rw (← take-append-drop n xs) (mem-append_left _ m)

-- A message of a batch is one of the topic's, stored and not locked.
pub mem-acquire :
    (locked : ℕ → Bool) (topic : String) (n : ℕ) (db : Db) {m : Message}
    → Mem m (acquire_messages_by_topic locked topic (some n) db)
    → Mem m db.messages × (m.topic ≡ topic) × (locked m.id ≡ false)
unfolding acquire_messages_by_topic
mem-acquire locked topic n db {m} h =
    let a = (mem-filter (λ (x : Message). is_true (not (locked x.id)))).0 (mem_of_mem-take n _ h) in
    let b =
      (mem-filter (λ (x : Message). is_true (x.topic == topic))).0 ((mem-order_by _ _).0 a.0) in
    (b.0, (text_test.same_iff m.topic topic).0 b.1, ground arith)

and_right : (a b : Bool) → (a && b) ≡ true → b ≡ true
and_right true b h = h
and_right false b h = cc

ok_ne_err : {e : Error} → ◌≡◌ {A = Result (Unit {0})} (ok tt) (err e) → ⊥
ok_ne_err p = cc

-- Deleting a batch by its ids deletes the batch and nothing else.
mem-delete :
    (topic : String) (msgs : List Message) (db : Db) (m : Message)
    → Nodup (map (λ (x : Message). x.id) db.messages)
    → ((x : Message) → Mem x msgs → Mem x db.messages × (x.topic ≡ topic))
    → Mem m (delete_messages_by_ids topic (map (λ (x : Message). x.id) msgs) db).messages
      ↔ (Mem m db.messages × (¬ Mem m msgs))
unfolding delete_messages_by_ids
mem-delete topic msgs db m keys stored = (
  λ h.
      let a = (mem-filter (λ (x : Message). is_true (not (is_hit x)))).0 h in
      (a.0, λ hit. missed_hit (hits m (stored m hit).1 hit) a.1),
  λ h. (mem-filter (λ (x : Message). is_true (not (is_hit x)))).1 (h.0, miss (is_hit m) refl h),
)
  where
    is_hit : Message → Bool
    is_hit x = x.topic == topic && elem x.id (map (λ (y : Message). y.id) msgs)

    hits : (x : Message) → x.topic ≡ topic → Mem x msgs → is_hit x ≡ true
    hits x e k = rw (e, ==_refl topic) (elem_of_mem _ (mem-map_of_mem (λ (y : Message). y.id) k))

    missed_hit : {b : Bool} → b ≡ true → not b ≡ true → ⊥
    missed_hit p q = cc

    listed : Mem m db.messages → is_hit m ≡ true → ∥ Mem m msgs ∥₁
    listed stored_m e =
        ∥∥₁_map
          (mem-map.0 (
            mem_of_elem m.id (map (λ (y : Message). y.id) msgs) (and_right (m.topic == topic) _ e)))
          λ (y, in_msgs, same).
            mem-cast
              (inj_on_of_Nodup-map Message-set (λ (x : Message). x.id) {l = db.messages} keys m
                stored_m y (stored y in_msgs).0 (sym same))
              in_msgs

    miss : (b : Bool) → is_hit m ≡ b → Mem m db.messages × (¬ Mem m msgs) → not b ≡ true
    miss false e k = refl
    miss true e k = absurd (∥∥₁_elim (listed k.0 e) ⊥_prop k.1)

Message-discrete : Discrete Message
Message-discrete = hlevel (String-discrete, ℕ_discrete)

decide_mem : {m : Message} (ms : List Message) → ¬ ¬ Mem m ms → Mem m ms
decide_mem {m} ms h = elim (dec_mem Message-discrete m ms) [ yes k ↦ k | no k ↦ absurd (h k) ]

messages-after_batch :
    (now : ℕ) (topic : String) (msgs : List Message) (app : List AppRow) (db : Db)
    → (after_batch now topic msgs app db).messages
      ≡ (delete_messages_by_ids topic (map (λ (x : Message). x.id) msgs) db).messages
unfolding bump_topic_activity_if_stale delete_messages_by_ids
messages-after_batch now topic msgs app db = refl

module _ (o : Outbox) (opts : List ProcessOpt) (topic : String) (w : World) where
  abbrev pub after : World
  after = (process_messages o opts topic w).1

  abbrev pub result : Result (List Message)
  result = (process_messages o opts topic w).0

  -- The batch that this call locks.
  abbrev pub locked_messages : List Message
  locked_messages =
      acquire_messages_by_topic w.locked_ids topic
        (some (apply_process_opts default_batch_size opts)) w.db

  -- What is stored after a flushed batch is what was stored and not in the batch.
  after_batch_exact :
      (app : List AppRow) (m : Message)
      → Nodup (map (λ (x : Message). x.id) w.db.messages)
      → Mem m (after_batch w.db_now topic locked_messages app w.db).messages
        ↔ (Mem m w.db.messages × (¬ Mem m locked_messages))
  after_batch_exact app m keys = rw (messages-after_batch w.db_now topic locked_messages app w.db) (
      mem-delete topic locked_messages w.db m keys
        (λ x h. let a = mem-acquire w.locked_ids topic _ w.db h in (a.0, a.1)))

  -- Where the stored ids are distinct, no path of ProcessMessages, whatever the database answers,
  -- removes a stored message that is not in the batch which a flusher has taken in this call.
  pub process_at_least_once :
      (m : Message)
      → Nodup (map (λ (x : Message). x.id) w.db.messages)
      → Mem m w.db.messages
      → ¬ Mem m after.db.messages
      → Mem m locked_messages × (after.delivered ≡ w.delivered ++ locked_messages ∷ [])
  unfolding process_messages
  process_at_least_once m keys before gone =
      let (f, e) = process_messages-Ends o opts topic w in by_end f e.at
    where
      by_end :
          (f : Flusher)
          → Ends o f (size_of o opts topic w) topic w result after
          → Mem m locked_messages × (after.delivered ≡ w.delivered ++ locked_messages ∷ [])
      by_end f (stopped _ _ d _) = absurd (gone (rw d before))
      by_end f (idle _ _ _ d _) = absurd (gone (rw d before))
      by_end f (undone _ _ _ _ _ d _) = absurd (gone (rw d before))
      by_end f (done app _ _ _ _ d l) =
          (decide_mem _ (λ k. gone (rw d ((after_batch_exact app m keys).1 (before, k)))), l)

  -- Where the stored ids are distinct and ProcessMessages returns messages, they are the batch that it
  -- locked, and the messages stored afterwards are those stored before that are not among them,
  -- whatever the database answered.
  pub process_success_exact :
      (msgs : List Message)
      → Nodup (map (λ (x : Message). x.id) w.db.messages)
      → result ≡ ok msgs
      → (msgs ≡ locked_messages)
        × ((m : Message) → Mem m after.db.messages ↔ (Mem m w.db.messages × (¬ Mem m msgs)))
  process_success_exact msgs keys won =
      let (f, e) = process_messages-Ends o opts topic w in by_end f e.at
    where
      by_end :
          (f : Flusher)
          → Ends o f (size_of o opts topic w) topic w result after
          → (msgs ≡ locked_messages)
            × ((m : Message) → Mem m after.db.messages ↔ (Mem m w.db.messages × (¬ Mem m msgs)))
      by_end f (stopped e failed _ _) = cc
      by_end f (idle _ none_left e d _) =
          let empty : msgs ≡ [] = cc in
          (empty ∙ sym none_left, λ m. rw (d, empty) ((λ h. (h, not-mem-nil)), λ h. h.0))
      by_end f (undone _ _ _ _ failed _ _) = cc
      by_end f (done app _ _ _ (inl e) d _) =
          let same : msgs ≡ locked_messages = cc in
          (same, λ m. rw (d, same) (after_batch_exact app m keys))
      by_end f (done app _ _ _ (inr (_, failed, _)) _ _) = cc

  -- When ProcessMessages returns an error and no answer of the database was lost, the database is as
  -- it was, the application's rows included.
  pub process_error_unchanged : (e : Error) → result ≡ err e → ¬ HasLost w.answers → after.db ≡ w.db
  process_error_unchanged e failed sure =
      let (f, e) = process_messages-Ends o opts topic w in by_end f e.at
    where
      by_end :
          (f : Flusher) → Ends o f (size_of o opts topic w) topic w result after → after.db ≡ w.db
      by_end f (stopped _ _ d _) = d
      by_end f (idle _ _ _ d _) = d
      by_end f (undone _ _ _ _ _ d _) = d
      by_end f (done app _ _ _ (inl won) _ _) = cc
      by_end f (done app _ _ _ (inr (_, _, lost_one)) _ _) = absurd (sure lost_one)

  -- An instance that fails the exclusive-access check changes nothing and hands nothing to a flusher.
  pub process_without_access :
      (e : Error)
      → check_row o.instance_id w.now (get_topic_for_update topic w.db) ≡ err e
      → (after.db ≡ w.db) × (after.delivered ≡ w.delivered)
  process_without_access e barred =
      let (f, e) = process_messages-Ends o opts topic w in by_end f e.at
    where
      by_end :
          (f : Flusher)
          → Ends o f (size_of o opts topic w) topic w result after
          → (after.db ≡ w.db) × (after.delivered ≡ w.delivered)
      by_end f (stopped _ _ d l) = (d, l)
      by_end f (idle _ _ _ d l) = (d, l)
      by_end f (undone app e' pass _ _ d l) = absurd (ok_ne_err (sym pass ∙ barred))
      by_end f (done app pass _ _ _ d l) = absurd (ok_ne_err (sym pass ∙ barred))
