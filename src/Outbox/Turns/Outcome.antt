-- ===== src/Outbox/Turns/Outcome.antt =====
-- What a round of the maintenance loop deletes, and what it leaves.
use mathlib.Core.List.{mem-filter, mem-cons, not-mem-nil, Pairwise, head?}
use mathlib.Core.Logic.Or
use mathlib.Core.Option
use native.Mathlib.Bridge.{le_prop}
use pgoutbox.Prelude.{
  ℕ, ◌+◌, ◌≤◌, ◌<◌, String, ◌≡◌, refl, false, Option, none, some, List, [], ◌∷◌, Mem, arith, ltb,
  is_true, ◌==◌, text_test, number_test, Bool-cases, inl, inr,
}
use pgoutbox.Sql.{select}
use pgoutbox.Sql.Order.{order_by, order_by-Ascending, mem-order_by, Ascending}
use pgoutbox.Db.{Db, Message}
use pgoutbox.Db.Messages.{get_oldest_message_inserted_at}
use pgoutbox.Db.Leases.{SelectMaintenanceLeaseForUpdateRow}
use pgoutbox.World.{
  World, rest, Result, ok, err, database, pure, gets, proceed, logged, attempt, begin, commit,
  tx_exec, tx_query, pool_query, ◌>>=◌,
}
use pgoutbox.World.Rules.{Gives, gets_rule, pure_rule, if_rule}
use pgoutbox.World.Attempts.{attempt_query_rule, logged_then_rule, logged-world}
use pgoutbox.Outbox.{Outbox}
use pgoutbox.Outbox.Maintenance.{run_maintenance, clean_up, is_held_by_other}
use pgoutbox.Outbox.Maintenance.Cleanup.{lease, cleanup_deletes_expired}
use pgoutbox.Outbox.Maintenance.Holder.{cleanup_complete}
use pgoutbox.Outbox.Maintenance.Dormant.{empty_of_oldest}
use pgoutbox.Outbox.Turns.{after_peek, maintenance_turn, maintenance_retry_interval}

module _ (topic : String) (db : Db) where
  abbrev of_topic : List Message
  of_topic = order_by (λ m. m.inserted_at) (select (λ m. m.topic == topic) db.messages)

  mem-of_topic : (m : Message) → Mem m db.messages → m.topic ≡ topic → Mem m of_topic
  mem-of_topic m stored same = (mem-order_by (λ (x : Message). x.inserted_at) _).1 (
      (mem-filter (λ (x : Message). is_true (x.topic == topic))).1
        (stored, (text_test.same_iff m.topic topic).1 same))

  -- The peek finds the oldest message of the topic, if there is one.
  oldest_least :
      (t : ℕ) (m : Message)
      → get_oldest_message_inserted_at topic db ≡ some t
      → Mem m db.messages
      → m.topic ≡ topic
      → t ≤ m.inserted_at
  unfolding get_oldest_message_inserted_at
  oldest_least t m peeked stored same =
      by_list of_topic (order_by-Ascending _ _) peeked (mem-of_topic m stored same)
    where
      by_list :
          (ms : List Message)
          → Ascending (λ (x : Message). x.inserted_at) ms
          → Option.map (λ (x : Message). x.inserted_at) (head? ms) ≡ some t
          → Mem m ms
          → t ≤ m.inserted_at
      by_list [] up e k = absurd (not-mem-nil k)
      by_list (x ∷ ms) (Pairwise.cons above _) e k =
          let first : x.inserted_at ≡ t = Option.some-injective _ _ e in
          Or.elim le_prop (mem-cons.0 k) (λ q. rw q (rw first (omega arith)))
            (λ q. rw (← first) (above m q))

module _ (o : Outbox) (topic : String) (ttl : ℕ) (w : World) where
  -- What a round may do to the messages, whatever it returns.
  abbrev Fair : {A : Type 0} → Result A → World → Type 0
  Fair r v =
      (m : Message)
      → Mem m w.db.messages
      → ¬ Mem m v.db.messages
      → (m.topic ≡ topic) × (m.inserted_at + ttl < w.now)

  record Round (r : Result ℕ) (v : World) : Type 0 where
    pause : ℕ
    fine : r ≡ ok pause
    fair : Fair r v

  after_peek-Round :
      (oldest : Result (Option ℕ)) (v : World)
      → v.db ≡ w.db
      → v.now ≡ w.now
      → Gives (after_peek o topic ttl oldest) v Round
  unfolding after_peek
  after_peek-Round (err e) v same_db same_now =
      pure_rule _ (record {
        pause = _;
        fine = refl;
        fair = λ m stored gone. absurd (gone (rw same_db stored));
      })
  after_peek-Round (ok none) v same_db same_now =
      pure_rule _ (record {
        pause = _;
        fine = refl;
        fair = λ m stored gone. absurd (gone (rw same_db stored));
      })
  after_peek-Round (ok (some oldest)) v same_db same_now = gets_rule _ _ (
      if_rule (ltb v.now (oldest + ttl))
        (λ _. pure_rule _ (record {
          pause = _;
          fine = refl;
          fair = λ m stored gone. absurd (gone (rw same_db stored));
        }))
        (λ _. logged_then_rule _ _ (
          pure_rule _ (record {
            pause = _;
            fine = refl;
            fair = λ m stored gone.
                rw (← same_now) (cleanup_deletes_expired o topic ttl v m (rw same_db stored) gone);
          }))))

  maintenance_turn-Round : Gives (maintenance_turn o topic ttl) w Round
  unfolding maintenance_turn
  maintenance_turn-Round =
      attempt_query_rule _ _ (λ c. after_peek-Round (err (database c)) (rest w) refl refl)
        (after_peek-Round (ok _) (rest w) refl refl)

  -- A round of the maintenance loop never fails, and whatever the database answers it deletes no message
  -- but those of its topic that are older than the time to live by this instance's clock.
  pub maintenance_turn_fair :
      ((d : ℕ) × ((maintenance_turn o topic ttl w).0 ≡ ok d))
      × ((m : Message)
          → Mem m w.db.messages
          → ¬ Mem m (maintenance_turn o topic ttl w).1.db.messages
          → (m.topic ≡ topic) × (m.inserted_at + ttl < w.now))
  maintenance_turn_fair = let r = maintenance_turn-Round.at in ((r.pause, r.fine), r.fair)

module _ (o : Outbox) (topic : String) (ttl : ℕ) (v : World) where
  -- The database answers everything.
  abbrev answering : World
  answering = record v { answers = [] }

  -- With the lease free or its own, a cleanup that the database answers succeeds.
  run_maintenance-ok :
      (l : SelectMaintenanceLeaseForUpdateRow)
      → lease o topic ttl answering ≡ some l
      → is_held_by_other o.instance_id l ≡ false
      → (run_maintenance o topic ttl answering).0 ≡ ok tt
  unfolding run_maintenance clean_up begin commit tx_exec tx_query ◌>>=◌ pure gets
  run_maintenance-ok l locked free = rw (locked, run_maintenance) (rw (free, clean_up) refl)

  -- What is stored after a logged cleanup is stored after the cleanup.
  left_by_logged :
      (m : Message)
      → Mem m (logged (run_maintenance o topic ttl) answering).1.db.messages
      → Mem m (run_maintenance o topic ttl answering).1.db.messages
  left_by_logged m stored = rw (← logged-world (run_maintenance o topic ttl) answering) stored

  -- A cleanup that is logged goes on with the retry interval.
  left_by_retry :
      (m : Message)
      → Mem m
          ((logged (run_maintenance o topic ttl) >>= (λ _. pure maintenance_retry_interval))
            answering).1.db.messages
      → Mem m (run_maintenance o topic ttl answering).1.db.messages
  unfolding ◌>>=◌ pure
  left_by_retry m stored = left_by_logged m (
      by_result (logged (run_maintenance o topic ttl) answering).0
        (logged (run_maintenance o topic ttl) answering).1 stored)
    where
      by_result :
          (r : Result (Unit {0})) (v : World)
          → Mem m (proceed r (λ _. pure maintenance_retry_interval) v).1.db.messages
          → Mem m v.db.messages
      by_result (ok _) v k = k
      by_result (err e) v k = k

  -- When no other instance holds the topic's maintenance lease and the database answers, a round of the
  -- maintenance loop leaves no message of the topic that is older than the time to live, whichever way
  -- it goes.
  pub maintenance_turn_cleans :
      (l : SelectMaintenanceLeaseForUpdateRow) (m : Message)
      → lease o topic ttl answering ≡ some l
      → is_held_by_other o.instance_id l ≡ false
      → Mem m (maintenance_turn o topic ttl answering).1.db.messages
      → m.topic ≡ topic
      → v.now ≤ m.inserted_at + ttl
  unfolding maintenance_turn after_peek pool_query attempt gets pure ◌>>=◌
  maintenance_turn_cleans l m locked free = by_peek (get_oldest_message_inserted_at topic v.db) refl
    where
      by_peek :
          (oldest : Option ℕ)
          → get_oldest_message_inserted_at topic v.db ≡ oldest
          → Mem m (after_peek o topic ttl (ok oldest) answering).1.db.messages
          → m.topic ≡ topic
          → v.now ≤ m.inserted_at + ttl
      by_peek none peeked = λ stored same. absurd (empty_of_oldest topic v.db peeked m stored same)
      by_peek (some t) peeked = elim (Bool-cases (ltb v.now (t + ttl))) [
        | inl young ↦
            rw (young, after_peek)
              (λ stored same.
                let le = oldest_least topic v.db t m peeked stored same in ground arith)
        | inr due ↦
            rw (due, after_peek)
              (λ stored same.
                (cleanup_complete o topic ttl answering (run_maintenance-ok l locked free)).1 m
                  (left_by_retry m stored) same)
      ]
