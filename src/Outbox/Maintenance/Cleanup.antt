-- ===== src/Outbox/Maintenance/Cleanup.antt =====
-- What the cleanup of a topic deletes, and under which lease.
use mathlib.Core.List.{mem-filter}
use pgoutbox.Prelude.{
  ℕ, ◌+◌, ◌-◌, ◌<◌, String, ◌≡◌, refl, ap, ◌⊎◌, inl, inr, ◌↔◌, Bool, true, false, not, ◌&&◌, Option,
  none, some, Mem, arith, ltb, ◌==◌, number_test, text_test, Option-cases, Bool-cases, is_true,
}
use pgoutbox.Db.{Db, Message}
use pgoutbox.Db.Messages.{delete_expired_messages}
use pgoutbox.Db.Leases.{
  SelectMaintenanceLeaseForUpdateRow, find_lease, insert_maintenance_lease_if_absent,
  select_maintenance_lease_for_update, update_maintenance_lease,
}
use pgoutbox.World.{World, Result, ok, err, Error, lease_held, rest}
use pgoutbox.World.Rules.{
  Gives, begin_rule, tx_exec_rule, tx_query_rule, commit_rule, gets_rule, pure_rule, raise_rule,
  if_rule, HasLost, HasLost-first, HasLost-later_n, later_n,
}
use pgoutbox.Outbox.{Outbox}
use pgoutbox.Outbox.Maintenance.{is_held_by_other, clean_up, run_maintenance}

messages-insert_lease :
    (now : ℕ) (topic : String) (holder : ℕ) (db : Db)
    → (insert_maintenance_lease_if_absent now topic holder db).messages ≡ db.messages
unfolding insert_maintenance_lease_if_absent
messages-insert_lease now topic holder db =
    elim (Option-cases (find_lease topic db.maintenance_leases)) [
      | inl absent ↦ rw (absent, insert_maintenance_lease_if_absent)
      | inr (l, there) ↦ rw (there, insert_maintenance_lease_if_absent)
    ]

module _ (o : Outbox) (topic : String) (ttl : ℕ) (w : World) where
  -- The lease row that this call locks: the stored one, or its own.
  abbrev pub leased : Db
  leased = insert_maintenance_lease_if_absent w.db_now topic o.instance_id w.db

  abbrev pub lease : Option SelectMaintenanceLeaseForUpdateRow
  lease =
      select_maintenance_lease_for_update w.db_now (w.now - w.maintenance_lease_timeout) topic
        leased

  abbrev pub cleaned : Db
  cleaned =
      delete_expired_messages topic (w.now - ttl)
        (update_maintenance_lease w.db_now topic o.instance_id leased)

  -- How runMaintenance can end.
  pub data Cleans (r : Result (Unit {0})) (w' : World) : Type 0 where
    stopped : (e : Error) → r ≡ err e → w'.db ≡ w.db → Cleans r w'
    kept_out :
        (l : SelectMaintenanceLeaseForUpdateRow)
        → lease ≡ some l
        → is_held_by_other o.instance_id l ≡ true
        → r ≡ err lease_held
        → w'.db ≡ w.db
        → Cleans r w'
    cleaned_up :
        (l : SelectMaintenanceLeaseForUpdateRow)
        → lease ≡ some l
        → is_held_by_other o.instance_id l ≡ false
        → (r ≡ ok tt) ⊎ ((e : Error) × (r ≡ err e) × HasLost w.answers)
        → w'.db ≡ cleaned
        → Cleans r w'

  abbrev reading : World
  reading = rest (rest (record (rest w) { work = leased }))

  clean_up-Cleans :
      (row : Option SelectMaintenanceLeaseForUpdateRow)
      → lease ≡ row
      → Gives (clean_up o topic ttl row) reading Cleans
  unfolding clean_up
  clean_up-Cleans none e = raise_rule _ (stopped _ refl refl)
  clean_up-Cleans (some l) e =
      if_rule (is_held_by_other o.instance_id l) (λ h. raise_rule _ (kept_out l e h refl refl))
        (λ h. gets_rule _ _ (
          tx_exec_rule _ _ (λ c. stopped _ refl refl)
            (gets_rule _ _ (
              tx_exec_rule _ _ (λ c. stopped _ refl refl)
                (commit_rule _ (λ c. stopped _ refl refl)
                  (λ c l'.
                    cleaned_up l e h
                      (inr (
                        _,
                        refl,
                        HasLost-later_n 5 w.answers (HasLost-first (later_n 5 w.answers) l'),
                      ))
                      refl)
                  (pure_rule tt (cleaned_up l e h (inl refl) refl)))))))

  pub run_maintenance-Cleans : Gives (run_maintenance o topic ttl) w Cleans
  unfolding run_maintenance
  run_maintenance-Cleans =
      begin_rule _ (λ c. stopped _ refl refl)
        (gets_rule _ _ (
          tx_exec_rule _ _ (λ c. stopped _ refl refl)
            (gets_rule _ _
              (tx_query_rule _ _ (λ c. stopped _ refl refl) (clean_up-Cleans lease refl)))))

  abbrev pub cleanup_result : Result (Unit {0})
  cleanup_result = (run_maintenance o topic ttl w).0

  abbrev pub after_cleanup : World
  after_cleanup = (run_maintenance o topic ttl w).1

  abbrev is_old : Message → Bool
  is_old m = m.topic == topic && ltb m.inserted_at (w.now - ttl)

  pub mem-cleaned :
      (m : Message) → Mem m cleaned.messages ↔ (Mem m w.db.messages × (not (is_old m) ≡ true))
  unfolding delete_expired_messages update_maintenance_lease
  mem-cleaned m =
      rw (messages-insert_lease w.db_now topic o.instance_id w.db)
        (mem-filter (λ (x : Message). is_true (not (is_old x))))

  old_split : (m : Message) → is_old m ≡ true → (m.topic ≡ topic) × (m.inserted_at + ttl < w.now)
  old_split m h = elim (Bool-cases (m.topic == topic)) [
    | inl same ↦ ((text_test.same_iff m.topic topic).0 same, ground (arith, same))
    | inr differs ↦ absurd (ground (arith, differs))
  ]

  -- Whatever the database answers, runMaintenance removes only messages of its topic that are older
  -- than the time to live by this instance's clock.
  pub cleanup_deletes_expired :
      (m : Message)
      → Mem m w.db.messages
      → ¬ Mem m after_cleanup.db.messages
      → (m.topic ≡ topic) × (m.inserted_at + ttl < w.now)
  cleanup_deletes_expired m before gone = by_end gone run_maintenance-Cleans.at
    where
      by_end :
          {r : Result (Unit {0})} {w' : World}
          → ¬ Mem m w'.db.messages
          → Cleans r w'
          → (m.topic ≡ topic) × (m.inserted_at + ttl < w.now)
      by_end gone (stopped e _ d) = absurd (gone (rw d before))
      by_end gone (kept_out l _ _ _ d) = absurd (gone (rw d before))
      by_end gone (cleaned_up l _ _ _ d) = elim (Bool-cases (is_old m)) [
        | inl old ↦ old_split m old
        | inr young ↦ absurd (gone (rw d ((mem-cleaned m).1 (before, ap not young))))
      ]
