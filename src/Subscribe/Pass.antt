-- ===== src/Subscribe/Pass.antt =====
-- What one processing pass of Subscribe does: it ends, and leaves nothing that it could take.
pub mod Fewer
pub mod Kept
use pgoutbox.Prelude.{
  ℕ, zero, suc, ◌+◌, ◌≤◌, ◌<◌, String, ◌≡◌, ◌≢◌, refl, sym, ◌∙◌, ap, Bool, true, false, some, List,
  [], ◌∷◌, Mem, map, arith, length, inl, inr, Bool-cases, ◌==◌, number_test, text_test,
  if◌then◌else◌, empty_of_length, length_of_nonempty, elem_of_mem, ==_refl, ◌&&◌,
}
use mathlib.Core.List.{mem-cons, not-mem-nil, mem-map_of_mem}
use mathlib.Core.Logic.Or
use pgoutbox.Sql.{select}
use pgoutbox.Db.{Db, Message, AppRow}
use pgoutbox.Db.Messages.{acquire_messages_by_topic, delete_messages_by_ids}
use pgoutbox.Db.Topics.{bump_topic_activity_if_stale}
use pgoutbox.World.{
  World, Result, ok, err, Error, M, context_ended, Env, proceed, pure, raise, ◌>>=◌,
}
use pgoutbox.World.Rules.{Gives, nest_rule}
use pgoutbox.Outbox.{Outbox, Flusher, get_flusher}
use pgoutbox.Outbox.Lease.{wake_up}
use pgoutbox.Outbox.Process.{ProcessOpt, process_messages}
use pgoutbox.Outbox.Process.Atomic.{
  after_batch, Ends, stopped, idle, undone, done, process_messages-Ends, size_of,
}
use pgoutbox.Outbox.Process.Batch.{acquire_short_batch}
use pgoutbox.Outbox.Process.Options.{batch_size_bounds}
use pgoutbox.Outbox.Process.Delivery.{mem-acquire}
use pgoutbox.Subscribe.{Meanwhile, process_topic_until_empty}
use pgoutbox.Subscribe.Pass.Fewer.{length-delete_where_lt}
use pgoutbox.Subscribe.Pass.Kept.{Plain, process_messages-Plain}

-- How many messages of the topic are stored.
abbrev pub pending : String → Db → ℕ
pending topic db = length (select (λ m. m.topic == topic) db.messages)

pub pending-after_batch :
    (now : ℕ) (topic : String) (msgs : List Message) (app : List AppRow) (db : Db)
    → ((x : Message) → Mem x msgs → Mem x db.messages × (x.topic ≡ topic))
    → msgs ≢ []
    → pending topic (after_batch now topic msgs app db) < pending topic db
unfolding bump_topic_activity_if_stale delete_messages_by_ids
pending-after_batch now topic [] app db stored h = absurd (h refl)
pending-after_batch now topic (m ∷ ms) app db stored h =
    let first : Mem m (m ∷ ms) = mem-cons.1 (Or.inl refl) in
    let (there, same) = stored m first in
    length-delete_where_lt (λ (x : Message). x.topic == topic) _ db.messages there
      ((text_test.same_iff m.topic topic).1 same)
      (rw (same, ==_refl topic) (elem_of_mem _ (mem-map_of_mem (λ (y : Message). y.id) first)))

module _ (o : Outbox) (popts : List ProcessOpt) (topic : String) (w : World) where
  -- How a call of ProcessMessages within a pass can end.
  data Round (r : Result (List Message)) (v : World) : Type 0 where
    failed : (e : Error) → r ≡ err e → e ≢ context_ended → Round r v
    nothing_left :
        r ≡ ok []
        → (acquire_messages_by_topic v.locked_ids topic (some (size_of o popts topic w)) v.db ≡ [])
        → Round r v
    more :
        (msgs : List Message)
        → r ≡ ok msgs
        → (length msgs == 0) ≡ false
        → pending topic v.db < pending topic w.db
        → Round r v

  process_messages-Round : Gives (process_messages o popts topic) w Round
  process_messages-Round =
      let (f, ends) = process_messages-Ends o popts topic w in
      record {
        at =
            by_end f (process_messages o popts topic w).0 (process_messages o popts topic w).1
              (process_messages-Plain o popts topic w).at ends.at;
      }
    where
      by_end :
          (f : Flusher) (r : Result (List Message)) (v : World)
          → Plain w.env r v
          → Ends o f (size_of o popts topic w) topic w r v
          → Round r v
      by_end f r v (env, plain) (stopped e bad _ _) =
          failed e bad (λ same. plain (bad ∙ ap err same))
      by_end f r v (env, plain) (idle _ none_left e d _) = nothing_left e (rw (env, d) none_left)
      by_end f r v (env, plain) (undone _ e _ _ bad _ _) =
          failed e bad (λ same. plain (bad ∙ ap err same))
      by_end f r v (env, plain) (done app _ some_left _ (inl e) d _) =
          more _ e (length_of_nonempty _ some_left) (
            rw d (
              pending-after_batch w.db_now topic _ app w.db
                (λ x k. let a = mem-acquire w.locked_ids topic _ w.db k in (a.0, a.1)) some_left))
      by_end f r v (env, plain) (done app _ _ _ (inr (e, bad, _)) _ _) =
          failed e bad (λ same. plain (bad ∙ ap err same))

ended_ne_ok : ◌≢◌ {A = Result (Unit {0})} (err context_ended) (ok tt)
ended_ne_ok p = cc

none_free :
    (o : Outbox) (popts : List ProcessOpt) (topic : String) (w v : World) (m : Message)
    → acquire_messages_by_topic v.locked_ids topic (some (size_of o popts topic w)) v.db ≡ []
    → Mem m v.db.messages
    → m.topic ≡ topic
    → v.locked_ids m.id ≡ true
none_free o popts topic w v m none_left stored same = elim (Bool-cases (v.locked_ids m.id)) [
  | inl p ↦ p
  | inr p ↦
      let (positive, _, _) = batch_size_bounds popts in
      let size = size_of o popts topic w in
      absurd (
        not-mem-nil {a = m} (
          rw (← none_left) (
            acquire_short_batch v.locked_ids topic size v.db (rw none_left positive) m stored same
              p)))
]

module _ (o : Outbox) (popts : List ProcessOpt) (topic : String) (meanwhile : Meanwhile) where
  abbrev pass : ℕ → M (Unit {0})
  pass = process_topic_until_empty o popts topic meanwhile

  -- What follows a call of ProcessMessages, with `rounds` left.
  abbrev after_round : ℕ → List Message → M (Unit {0})
  after_round rounds msgs =
      if length msgs == 0 then pure tt else (λ w. pass rounds (wake_up (meanwhile w) w))

  abbrev Settled : ℕ → ℕ → World → Type 0
  Settled rounds longer w =
      ((pass rounds w).0 ≢ err context_ended) × (pass longer w ≡ pass rounds w)

  abbrev QuietMeanwhile : Type 0
  QuietMeanwhile = (v : World) → pending topic (meanwhile v).db ≤ pending topic v.db

  module _ (quiet : QuietMeanwhile) where
    settled :
        (rounds longer : ℕ) (w : World)
        → pending topic w.db < rounds
        → rounds ≤ longer
        → Settled rounds longer w
    unfolding process_topic_until_empty pure raise get_flusher ◌>>=◌
    settled zero longer w h le = absurd (omega arith)
    settled (suc rounds) zero w h le = absurd (omega arith)
    settled (suc rounds) (suc longer) w h le =
        by_round
          (λ v fewer.
            settled rounds longer (wake_up (meanwhile v) v) (omega (arith, quiet v)) (omega arith))
          _ _ (process_messages-Round o popts topic w).at
      where
        by_round :
            ((v : World)
              → pending topic v.db < pending topic w.db
              → Settled rounds longer (wake_up (meanwhile v) v))
            → (r : Result (List Message)) (v : World) → Round o popts topic w r v
            → ((proceed r (after_round rounds) v).0 ≢ err context_ended)
              × (proceed r (after_round longer) v ≡ proceed r (after_round rounds) v)
        by_round later r v (failed e bad other) =
            rw bad ((λ p. let same : e ≡ context_ended = cc in other same), refl)
        by_round later r v (nothing_left fine _) = rw fine ((λ p. cc), refl)
        by_round later r v (more msgs fine some_left fewer) = rw fine (rw some_left (later v fewer))

  -- If nobody adds messages to the topic meanwhile, a pass of Subscribe ends by itself, in an error of
  -- ProcessMessages or with the topic empty, before it has called ProcessMessages more often than the
  -- topic had messages and once more: with that many rounds it does not see the context end, and more
  -- rounds make no difference.
  pub pass_terminates :
      QuietMeanwhile
      → (rounds longer : ℕ) (w : World) → pending topic w.db < rounds
      → rounds ≤ longer
      → ((pass rounds w).0 ≢ err context_ended) × (pass longer w ≡ pass rounds w)
  pass_terminates = settled

  -- When a pass of Subscribe succeeds, whatever others did meanwhile, every message of the topic that
  -- is stored at its end is locked by another transaction.
  pub pass_drains :
      (rounds : ℕ) (w : World) (m : Message)
      → (pass rounds w).0 ≡ ok tt
      → Mem m (pass rounds w).1.db.messages
      → m.topic ≡ topic
      → (pass rounds w).1.locked_ids m.id ≡ true
  unfolding process_topic_until_empty pure raise get_flusher ◌>>=◌
  pass_drains zero w m fine stored same = absurd (ended_ne_ok fine)
  pass_drains (suc rounds) w m fine stored same =
      by_round (λ v. pass_drains rounds (wake_up (meanwhile v) v) m) _ _
        (process_messages-Round o popts topic w).at fine stored same
    where
      by_round :
          ((v : World)
            → let v' = wake_up (meanwhile v) v in
              (pass rounds v').0 ≡ ok tt
              → Mem m (pass rounds v').1.db.messages
              → m.topic ≡ topic
              → (pass rounds v').1.locked_ids m.id ≡ true)
          → (r : Result (List Message)) (v : World) → Round o popts topic w r v
          → (proceed r (after_round rounds) v).0 ≡ ok tt
          → Mem m (proceed r (after_round rounds) v).1.db.messages
          → m.topic ≡ topic
          → (proceed r (after_round rounds) v).1.locked_ids m.id ≡ true
      by_round later r v (failed e bad other) = rw bad (λ p. cc)
      by_round later r v (nothing_left fine none_left) =
          rw fine (λ _. none_free o popts topic w v m none_left)
      by_round later r v (more msgs fine some_left fewer) = rw fine (rw some_left (later v))
