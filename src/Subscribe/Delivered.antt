-- ===== src/Subscribe/Delivered.antt =====
-- A pass of Subscribe that nothing disturbs delivers the topic, in order.
use mathlib.Core.List.{flatten, append-nil, append_assoc}
use pgoutbox.Prelude.{
  ℕ, zero, suc, ◌<◌, String, ◌≡◌, ◌≢◌, refl, sym, ap, ◌∙◌, false, some, List, [], ◌∷◌, ◌++◌, Perm,
  arith, length_of_nonempty, take, take-append-drop, ◌==◌, number_test, text_test,
}
use pgoutbox.Sql.{select, delete_where}
use pgoutbox.Sql.Keys.{UniqueKeys}
use pgoutbox.Sql.Order.{order_by-perm}
use pgoutbox.Sql.Batch.{delete_nothing}
use pgoutbox.Db.{Message, AppRow}
use pgoutbox.Db.Topics.{get_topic_for_update}
use pgoutbox.World.{World, Result, ok}
use pgoutbox.Outbox.{Outbox, Flusher, flushed, get_flusher}
use pgoutbox.Outbox.Access.{check_row}
use pgoutbox.Outbox.Process.Atomic.{after_batch}
use pgoutbox.Outbox.Process.{ProcessOpt, apply_process_opts, default_batch_size}
use pgoutbox.Outbox.Process.Progress.{process_batch, process_nothing}
use pgoutbox.World.Rules.{Gives, pure_rule}
use pgoutbox.World.Attempts.{known_rule}
use pgoutbox.Outbox.Process.Options.{batch_size_bounds}
use pgoutbox.Outbox.Process.Delivery.{mem-acquire}
use mathlib.Core.List.Perm
use pgoutbox.Subscribe.{Meanwhile, process_topic_until_empty}
use pgoutbox.Subscribe.Backlog.{
  backlog, acquire-unlocked, backlog-after, others-after, keys-after, get_topic_for_update-after,
}
use pgoutbox.Subscribe.Pass.{pending, pending-after_batch}

-- Nothing happens between two calls.
abbrev pub undisturbed : Meanwhile
undisturbed w = record { env = w.env; db = w.db }

abbrev pub Willing : Flusher → Type 0
Willing f =
    (msgs : List Message) (app : List AppRow) → (rows : List AppRow) × (f msgs app ≡ flushed rows)

-- The database answers everything.
abbrev pub answering : World → World
answering v = record v { answers = [] }

module _ (o : Outbox) (popts : List ProcessOpt) (topic : String) (f : Flusher) where
  abbrev size : ℕ
  size = apply_process_opts default_batch_size popts

  -- What a pass may rely on.
  pub record Ready (v : World) : Type 0 where
    pub allowed : check_row o.instance_id v.now (get_topic_for_update topic v.db) ≡ ok tt
    pub keyed : UniqueKeys (λ (m : Message). m.id) v.db.messages
    pub unlocked : (id : ℕ) → v.locked_ids id ≡ false

  -- How a pass ends that started in `v`.
  record Delivers (v : World) (r : Result (Unit {0})) (w : World) : Type 0 where
    fine : r ≡ ok tt
    batches : List (List Message)
    handed_over : w.delivered ≡ v.delivered ++ batches
    in_order : flatten batches ≡ backlog topic v.db
    others : w.db.messages ≡ delete_where (λ m. m.topic == topic) v.db.messages

  abbrev first_batch : World → List Message
  first_batch v = take size (backlog topic v.db)

  abbrev next : List Message → List AppRow → World → World
  next msgs app v =
      let left = after_batch v.db_now topic msgs app v.db in
      record v { db = left; work = left; delivered = v.delivered ++ msgs ∷ [] }

  next-Ready : (app : List AppRow) (v : World) → Ready v → Ready (next (first_batch v) app v)
  next-Ready app v ready = record {
    allowed = rw (get_topic_for_update-after v.db_now topic (first_batch v) app v.db) ready.allowed;
    keyed = keys-after v.db_now topic size app v.db ready.keyed;
    unlocked = ready.unlocked;
  }

  next-Delivers :
      (app : List AppRow) (v : World) (r : Result (Unit {0})) (w : World)
      → Ready v
      → Delivers (next (first_batch v) app v) r w
      → Delivers v r w
  unfolding flatten
  next-Delivers app v r w ready d = record {
    fine = d.fine;
    batches = first_batch v ∷ d.batches;
    handed_over = d.handed_over ∙ append_assoc v.delivered _ _;
    in_order =
        ap (◌++◌ (first_batch v))
          (d.in_order ∙ backlog-after v.db_now topic size app v.db ready.keyed)
        ∙ take-append-drop size (backlog topic v.db);
    others = d.others ∙ others-after v.db_now topic size app v.db;
  }

  cons_ne {ℓ} : {A : Type ℓ} {a : A} {more : List A} → a ∷ more ≢ []
  cons_ne e = cc

  taken_none : (v : World) → first_batch v ≡ [] → backlog topic v.db ≡ []
  taken_none v h =
      let (positive, _, _) = batch_size_bounds popts in by_size size (backlog topic v.db) positive h
    where
      by_size : (n : ℕ) (ms : List Message) → 0 < n → take n ms ≡ [] → ms ≡ []
      by_size zero ms p h = absurd (omega arith)
      by_size (suc n) [] p h = refl
      by_size (suc n) (m ∷ ms) p h = cc

  -- With nothing left, the pass is over.
  nothing-Delivers :
      (v : World) → first_batch v ≡ [] → Delivers v (ok tt) (record (answering v) { work = v.db })
  unfolding flatten
  nothing-Delivers v h =
      let none_left = taken_none v h in
      let gone : Perm (select (λ m. m.topic == topic) v.db.messages) [] = rw none_left at (
        Perm.symm
          (order_by-perm (λ (m : Message). m.id) (select (λ m. m.topic == topic) v.db.messages))) in
      record {
        fine = refl;
        batches = [];
        handed_over = sym (append-nil v.delivered);
        in_order = sym none_left;
        others =
            sym
              (delete_nothing (λ (m : Message). m.topic == topic) v.db.messages (Perm.eq-nil gone));
      }

  fewer :
      (app : List AppRow) (v : World)
      → Ready v
      → first_batch v ≢ []
      → pending topic (next (first_batch v) app v).db < pending topic v.db
  fewer app v ready some_left =
      pending-after_batch v.db_now topic _ app v.db
        (λ x k.
          let a =
            mem-acquire v.locked_ids topic size v.db
              (rw (acquire-unlocked v.locked_ids topic size v.db ready.unlocked) k) in
          (a.0, a.1))
        some_left

  module _ (there : get_flusher o topic ≡ some f) (willing : Willing f) where
    pass-Delivers :
        (rounds : ℕ) (v : World)
        → Ready v
        → pending topic v.db < rounds
        → Gives
            (process_topic_until_empty o popts topic undisturbed rounds)
            (answering v)
            (Delivers v)
    unfolding process_topic_until_empty
    pass-Delivers zero v ready h = absurd (omega arith)
    pass-Delivers (suc rounds) v ready h = by_batch (first_batch v) refl (λ app some_left. record {
      at =
          next-Delivers app v _ _ ready
            (pass-Delivers rounds _ (next-Ready app v ready)
              (omega (arith, fewer app v ready some_left))).at;
    })
      where
        by_batch :
            (msgs : List Message)
            → first_batch v ≡ msgs
            → ((app : List AppRow)
                → first_batch v ≢ []
                → Gives
                    (process_topic_until_empty o popts topic undisturbed rounds)
                    (answering (next (first_batch v) app v))
                    (Delivers v))
            → Gives
                (process_topic_until_empty o popts topic undisturbed (suc rounds))
                (answering v)
                (Delivers v)
        by_batch [] e later =
            known_rule _ _
              (process_nothing o popts topic v f there ready.allowed
                (acquire-unlocked v.locked_ids topic size v.db ready.unlocked ∙ e))
              (pure_rule _ (nothing-Delivers v e))
        by_batch (m ∷ ms) e later =
            let (app, took) = willing (m ∷ ms) v.db.app in
            known_rule _ _
              (process_batch o popts topic v f m ms app there ready.allowed
                (acquire-unlocked v.locked_ids topic size v.db ready.unlocked ∙ e) took)
              (rw (length_of_nonempty (m ∷ ms) cons_ne)
                (rw e at (later app (λ none_left. cons_ne (sym e ∙ none_left)))))

-- An instance that may process the topic, in a database that answers, with no message locked by others,
-- a flusher that takes every batch and nothing else going on: one pass of Subscribe succeeds, hands the
-- topic's messages over, each once and in the order of their ids, batch after batch, and stores of
-- the messages just the other topics' afterwards.
pub pass_delivers_in_order :
    (o : Outbox) (popts : List ProcessOpt) (topic : String) (f : Flusher) (rounds : ℕ) (v : World)
    → get_flusher o topic ≡ some f
    → Willing f
    → check_row o.instance_id v.now (get_topic_for_update topic v.db) ≡ ok tt
    → UniqueKeys (λ (m : Message). m.id) v.db.messages
    → ((id : ℕ) → v.locked_ids id ≡ false)
    → pending topic v.db < rounds
    → let (r, w) = process_topic_until_empty o popts topic undisturbed rounds (answering v) in
      (r ≡ ok tt)
      × ((batches : List (List Message)) × (w.delivered ≡ v.delivered ++ batches)
          × (flatten batches ≡ backlog topic v.db))
      × (w.db.messages ≡ delete_where (λ m. m.topic == topic) v.db.messages)
pass_delivers_in_order o popts topic f rounds v there willing pass keys free enough =
    let ready : Ready o popts topic f v = record {
      allowed = pass;
      keyed = keys;
      unlocked = free;
    } in
    let d = (pass-Delivers o popts topic f there willing rounds v ready enough).at in
    (d.fine, (d.batches, d.handed_over, d.in_order), d.others)
