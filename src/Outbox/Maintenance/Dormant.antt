-- ===== src/Outbox/Maintenance/Dormant.antt =====
-- What the exit of a dormant topic's loop removes.
use mathlib.Core.List.{head?, mem-filter, not-mem-nil}
use mathlib.Core.Option
use pgoutbox.Prelude.{
  ℕ, ◌+◌, ◌<◌, String, ◌≡◌, ◌≢◌, refl, sym, ◌∙◌, ap, ◌⊎◌, inl, inr, Option, none, some, List, [],
  ◌∷◌, Mem, ◌==◌, text_test, number_test, is_true,
}
use pgoutbox.Sql.{select}
use pgoutbox.Sql.Order.{order_by, mem-order_by}
use pgoutbox.Db.{Db, Message, MaintenanceLease}
use pgoutbox.Db.Messages.{get_oldest_message_inserted_at}
use pgoutbox.Db.Leases.{find_lease, release_maintenance_lease}
use pgoutbox.World.{World, Result, ok, rest}
use pgoutbox.World.Rules.{
  Gives, logged_rule, nest_rule, proceed_rule, pool_query_rule, pool_exec_rule, pure_rule,
}
use pgoutbox.Outbox.{Outbox}
use pgoutbox.Outbox.Maintenance.{run_maintenance, release_if_empty, finish_dormant_topic}
use pgoutbox.Outbox.Maintenance.Cleanup.{
  Cleans, stopped, kept_out, cleaned_up, run_maintenance-Cleans, cleaned, cleanup_deletes_expired,
  after_cleanup, cleanup_result,
}
use pgoutbox.Outbox.Maintenance.Holder.{cleanup_complete, stored_lease}

-- A topic without an oldest message has no message.
pub empty_of_oldest :
    (topic : String) (db : Db)
    → get_oldest_message_inserted_at topic db ≡ none
    → (m : Message) → Mem m db.messages
    → m.topic ≢ topic
unfolding get_oldest_message_inserted_at
empty_of_oldest topic db e m stored same =
    by_order
      (order_by (λ (x : Message). x.inserted_at) (select (λ x. x.topic == topic) db.messages)) e
      ((mem-order_by (λ (x : Message). x.inserted_at) _).1 (
        (mem-filter (λ (x : Message). is_true (x.topic == topic))).1
          (stored, (text_test.same_iff m.topic topic).1 same)))
  where
    by_order :
        (ms : List Message)
        → Option.map (λ (x : Message). x.inserted_at) (head? ms) ≡ none
        → Mem m ms
        → ⊥
    by_order [] e k = not-mem-nil k
    by_order (x ∷ ms) e k = cc

none_ne_some : {n : ℕ} → ◌≡◌ {A = Option ℕ} none (some n) → ⊥
none_ne_some p = cc

abbrev HolderIs : ℕ → String → Db → Type 0
HolderIs me topic db =
    Option.map (λ (l : MaintenanceLease). l.holder_id) (find_lease topic db.maintenance_leases)
    ≡ some me

module _ (o : Outbox) (topic : String) (ttl : ℕ) (w : World) where
  -- What is promised of the database that is left.
  abbrev Exits : Db → Type 0
  Exits db =
      ((m : Message)
        → Mem m w.db.messages
        → ¬ Mem m db.messages
        → (m.topic ≡ topic) × (m.inserted_at + ttl < w.now))
      × (find_lease topic db.maintenance_leases ≡ none
          → (find_lease topic w.db.maintenance_leases ≡ none)
            ⊎ ((m : Message) → Mem m db.messages → m.topic ≢ topic))

  abbrev after : World
  after = after_cleanup o topic ttl w

  no_holder :
      (db : Db) → find_lease topic db.maintenance_leases ≡ none → ¬ HolderIs o.instance_id topic db
  no_holder db gone held =
      none_ne_some (sym (ap (Option.map (λ (l : MaintenanceLease). l.holder_id)) gone) ∙ held)

  held_on :
      cleanup_result o topic ttl w ≡ ok tt → find_lease topic after.db.maintenance_leases ≢ none
  held_on won gone = no_holder after.db gone (cleanup_complete o topic ttl w won).0

  -- The cleanup itself never removes the lease row.
  lease_kept :
      find_lease topic after.db.maintenance_leases ≡ none
      → find_lease topic w.db.maintenance_leases ≡ none
  lease_kept gone = by_end gone (run_maintenance-Cleans o topic ttl w).at
    where
      by_end :
          {r : Result (Unit {0})} {w' : World}
          → find_lease topic w'.db.maintenance_leases ≡ none
          → Cleans o topic ttl w r w'
          → find_lease topic w.db.maintenance_leases ≡ none
      by_end gone (stopped e _ d) = rw d at gone
      by_end gone (kept_out _ _ _ _ d) = rw d at gone
      by_end gone (cleaned_up _ _ _ _ d) =
          absurd (no_holder (cleaned o topic ttl w) (rw d at gone) (stored_lease o topic ttl w))

  release_if_empty-Exits :
      (oldest : Option ℕ)
      → get_oldest_message_inserted_at topic after.db ≡ oldest
      → cleanup_result o topic ttl w ≡ ok tt
      → Gives (release_if_empty o topic oldest) (rest after) (λ r v. Exits v.db)
  unfolding release_if_empty release_maintenance_lease
  release_if_empty-Exits (some t) e won =
      pure_rule tt (cleanup_deletes_expired o topic ttl w, λ gone. absurd (held_on won gone))
  release_if_empty-Exits none e won =
      let empty : Exits (release_maintenance_lease topic o.instance_id after.db) =
        (cleanup_deletes_expired o topic ttl w, λ gone. inr (empty_of_oldest topic after.db e)) in
      pool_exec_rule _ _
        (λ c. (cleanup_deletes_expired o topic ttl w, λ gone. absurd (held_on won gone)))
        (λ c l. empty) (pure_rule tt empty)

  finish_dormant_topic-Exits : Gives (finish_dormant_topic o topic ttl) w (λ r v. Exits v.db)
  unfolding finish_dormant_topic
  finish_dormant_topic-Exits = logged_rule _ (
      nest_rule (run_maintenance o topic ttl) _ (record {
        at =
            proceed_rule (λ r v. Exits v.db) (cleanup_result o topic ttl w) after _
              (λ e bad. (cleanup_deletes_expired o topic ttl w, λ gone. inl (lease_kept gone)))
              (λ _ won.
                pool_query_rule _ _
                  (λ c. (cleanup_deletes_expired o topic ttl w, λ gone. absurd (held_on won gone)))
                  (release_if_empty-Exits (get_oldest_message_inserted_at topic after.db) refl
                    won));
      }))

  -- Whatever the database answers, the dormancy exit removes only expired messages of its topic, and
  -- it leaves the topic without a maintenance lease, where there was one, only if it also leaves the
  -- topic without messages.
  pub dormant_exit :
      let (_, v) = finish_dormant_topic o topic ttl w in
      ((m : Message)
        → Mem m w.db.messages
        → ¬ Mem m v.db.messages
        → (m.topic ≡ topic) × (m.inserted_at + ttl < w.now))
      × (find_lease topic v.db.maintenance_leases ≡ none
          → (find_lease topic w.db.maintenance_leases ≡ none)
            ⊎ ((m : Message) → Mem m v.db.messages → m.topic ≢ topic))
  dormant_exit = finish_dormant_topic-Exits.at
