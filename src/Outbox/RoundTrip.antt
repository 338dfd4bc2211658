-- ===== src/Outbox/RoundTrip.antt =====
-- From AddMessages through the caller's commit to ProcessMessages.
use mathlib.Core.List.{Pairwise, mem-cons, not-mem-nil, mem-map_of_mem}
use mathlib.Core.Logic.Or
use pgoutbox.Prelude.{
  ℕ, zero, suc, ◌≤◌, String, ◌≡◌, ◌≢◌, refl, sym, ◌∙◌, ap, Bool, true, false, not, Option, some,
  List, [], ◌∷◌, ◌++◌, map, Mem, arith, String-set, length, take, ◌==◌, ==-false, text_test,
  number_test,
}
use pgoutbox.Sql.{select}
use pgoutbox.Sql.Order.{order_by, Ascending, order_by_sorted}
use pgoutbox.Db.{Db, Message, AppRow}
use pgoutbox.Db.Messages.{number_rows, acquire_messages_by_topic}
use pgoutbox.Db.IsWellFormed.Inserted.{number_rows-above}
use pgoutbox.Db.Topics.{get_topic_for_update}
use pgoutbox.World.{World, Result, ok}
use pgoutbox.Outbox.{Outbox, Flusher, flushed, get_flusher}
use pgoutbox.Outbox.Access.{check_row}
use pgoutbox.Outbox.Process.{process_messages, default_batch_size, apply_process_opts}
use pgoutbox.Outbox.Process.Progress.{process_batch}
use pgoutbox.Outbox.Add.{MessageOpts, Notifier, add_messages}
use pgoutbox.Outbox.Add.Stored.{params_of, payloads, StoredAs, add_messages-work}

module _ {A : Type 0} (p : A → Bool) where
  select_none : (xs : List A) → ((x : A) → Mem x xs → p x ≡ false) → select p xs ≡ []
  select_none [] h = refl
  select_none (x ∷ xs) h =
      rw (h x (mem-cons.1 (Or.inl refl))) (select_none xs (λ y m. h y (mem-cons.1 (Or.inr m))))

  select_all : (xs : List A) → ((x : A) → Mem x xs → p x ≡ true) → select p xs ≡ xs
  select_all [] h = refl
  select_all (x ∷ xs) h =
      rw (h x (mem-cons.1 (Or.inl refl)))
        (ap (◌∷◌ x) (select_all xs (λ y m. h y (mem-cons.1 (Or.inr m)))))

  select_append : (xs ys : List A) → select p (xs ++ ys) ≡ select p xs ++ select p ys
  select_append [] ys = refl
  select_append (x ∷ xs) ys = ground (arith, select_append xs ys)

take_all : {A : Type 0} (n : ℕ) (xs : List A) → length xs ≤ n → take n xs ≡ xs
take_all zero [] h = refl
take_all zero (x ∷ xs) h = absurd (omega arith)
take_all (suc n) [] h = refl
take_all (suc n) (x ∷ xs) h = ap (◌∷◌ x) (take_all n xs (omega arith))

module _ (topic : String) (now : ℕ) where
  abbrev rows : ℕ → List (List ℕ) → List Message
  rows id ps = number_rows id now (params_of topic ps)

  length-rows : (id : ℕ) (msgs : List (List ℕ)) → length (rows id msgs) ≡ length msgs
  unfolding number_rows
  length-rows id [] = refl
  length-rows id (m ∷ ms) = ap suc (length-rows (suc id) ms)

  payloads-rows :
      (id : ℕ) (msgs : List (List ℕ)) → map (λ (m : Message). m.payload) (rows id msgs) ≡ msgs
  unfolding number_rows
  payloads-rows id [] = refl
  payloads-rows id (m ∷ ms) = ap (◌∷◌ m) (payloads-rows (suc id) ms)

  topic-rows :
      (id : ℕ) (msgs : List (List ℕ)) (m : Message) → Mem m (rows id msgs) → m.topic ≡ topic
  unfolding number_rows
  topic-rows id [] m h = absurd (not-mem-nil h)
  topic-rows id (x ∷ msgs) m h =
      Or.elim (String-set _ _) (mem-cons.0 h) (λ e. ap (λ (y : Message). y.topic) e)
        (topic-rows (suc id) msgs m)

  rows-Ascending :
      (id : ℕ) (msgs : List (List ℕ)) → Ascending (λ (m : Message). m.id) (rows id msgs)
  unfolding number_rows
  rows-Ascending id [] = Pairwise.nil
  rows-Ascending id (x ∷ msgs) =
      Pairwise.cons
        (λ m h.
          let later =
            number_rows-above now (suc id) m.id (params_of topic msgs)
              (mem-map_of_mem (λ (y : Message). y.id) h) in
          omega arith)
        (rows-Ascending (suc id) msgs)

  -- The batch of a topic that held nothing before the insert is what the insert stored.
  acquire-rows :
      (locked : ℕ → Bool) (n id : ℕ) (msgs : List (List ℕ)) (before : List Message) (db : Db)
      → db.messages ≡ before ++ rows id msgs
      → ((m : Message) → Mem m before → m.topic ≢ topic)
      → ((k : ℕ) → locked k ≡ false)
      → length msgs ≤ n
      → acquire_messages_by_topic locked topic (some n) db ≡ rows id msgs
  unfolding acquire_messages_by_topic
  acquire-rows locked n id msgs before db stored others free small =
      let mine =
        ap (select (λ (m : Message). m.topic == topic)) stored
        ∙ select_append (λ (m : Message). m.topic == topic) before (rows id msgs)
        ∙ ap (λ ms. ms ++ select (λ (m : Message). m.topic == topic) (rows id msgs))
            (select_none (λ (m : Message). m.topic == topic) before
              (λ m k. ==-false m.topic topic (others m k)))
        ∙ select_all (λ (m : Message). m.topic == topic) (rows id msgs)
            (λ m k. (text_test.same_iff m.topic topic).1 (topic-rows id msgs m k)) in
      let sorted =
        ap (order_by (λ (m : Message). m.id)) mine
        ∙ order_by_sorted (λ (m : Message). m.id) (rows id msgs) (rows-Ascending id msgs) in
      ap (λ ms. take n (select (λ (m : Message). not (locked m.id)) ms)) sorted
      ∙ ap (take n) (
          select_all (λ (m : Message). not (locked m.id)) (rows id msgs)
            (λ m k. ap not (free m.id)))
      ∙ take_all n (rows id msgs) (rw (length-rows id msgs) small)

length-map : {A B : Type 0} (f : A → B) (xs : List A) → length (map f xs) ≡ length xs
length-map f [] = refl
length-map f (x ∷ xs) = ap suc (length-map f xs)

length-StoredAs :
    (f : List ℕ → Option (List ℕ)) (msgs : List MessageOpts) (ps : List (List ℕ))
    → StoredAs f msgs ps
    → length ps ≡ length msgs
length-StoredAs f msgs ps kept =
    sym (length-map _ ps) ∙ sym (ap length kept) ∙ length-map f (payloads msgs) ∙ length-map _ msgs

pub add_then_process :
    (o : Outbox) (topic : String) (m : MessageOpts) (ms : List MessageOpts) (n n' : Option Notifier)
    (w v : World) (f : Flusher) (app : List AppRow)
    → ((x : Message) → Mem x w.work.messages → x.topic ≢ topic)
    → (add_messages o topic (m ∷ ms) n w).0 ≡ ok n'
    → length (m ∷ ms) ≤ default_batch_size
    → v.db ≡ (add_messages o topic (m ∷ ms) n w).1.work
    → ((k : ℕ) → v.locked_ids k ≡ false)
    → check_row o.instance_id v.now (get_topic_for_update topic v.db) ≡ ok tt
    → get_flusher o topic ≡ some f
    → ((batch : List Message)
        → StoredAs w.to_jsonb (m ∷ ms) (map (λ (x : Message). x.payload) batch)
        → f batch v.db.app ≡ flushed app)
    → let (r, after) = process_messages o [] topic (record v { answers = [] }) in
      (batch : List Message) × (r ≡ ok batch)
      × StoredAs w.to_jsonb (m ∷ ms) (map (λ (x : Message). x.payload) batch)
      × (after.delivered ≡ v.delivered ++ batch ∷ [])
unfolding number_rows apply_process_opts
add_then_process o topic m ms n n' w v f app others won small committed free pass there takes =
    let (ps, kept, stored) = add_messages-work o topic (m ∷ ms) n w n' (λ e. cc) won in
    by_rows ps kept (ap (λ (db : Db). db.messages) committed ∙ stored)
  where
    by_rows :
        (ps : List (List ℕ))
        → StoredAs w.to_jsonb (m ∷ ms) ps
        → v.db.messages ≡ w.work.messages ++ rows topic w.db_now w.work.next_id ps
        → let (r, after) = process_messages o [] topic (record v { answers = [] }) in
          (batch : List Message) × (r ≡ ok batch)
          × StoredAs w.to_jsonb (m ∷ ms) (map (λ (x : Message). x.payload) batch)
          × (after.delivered ≡ v.delivered ++ batch ∷ [])
    by_rows [] kept stored = absurd (omega (arith, length-StoredAs w.to_jsonb (m ∷ ms) [] kept))
    by_rows (p ∷ ps) kept stored =
        let batch =
          acquire-rows topic w.db_now v.locked_ids default_batch_size w.work.next_id (p ∷ ps)
            w.work.messages v.db stored others free
            (rw (length-StoredAs w.to_jsonb (m ∷ ms) (p ∷ ps) kept) small) in
        let paid = payloads-rows topic w.db_now w.work.next_id (p ∷ ps) in
        let same : StoredAs w.to_jsonb (m ∷ ms)
            (map (λ (x : Message). x.payload) (rows topic w.db_now w.work.next_id (p ∷ ps))) =
          kept ∙ ap (map (λ p. some p)) (sym paid) in
        let whole =
          process_batch o [] topic v f _ (rows topic w.db_now (suc w.work.next_id) ps) app there
            pass batch (takes _ same) in
        (
          rows topic w.db_now w.work.next_id (p ∷ ps),
          ap (λ (x : Result (List Message) × World). x.0) whole,
          same,
          ap (λ (x : Result (List Message) × World). x.1.delivered) whole,
        )
