-- ===== src/Outbox/Maintenance/Holder.antt =====
-- Under which lease the cleanup runs, and what a cleanup that succeeds leaves.
use mathlib.Core.Option
use pgoutbox.Prelude.{
  ℕ, ◌+◌, ◌-◌, ◌≤◌, String, ◌≡◌, ◌≢◌, refl, sym, ◌∙◌, ap, inl, inr, Bool, true, false, not, ◌&&◌,
  some, Mem, arith, ltb, ◌==◌, ==_refl, number_test, text_test, Option-cases, ==-false,
}
use pgoutbox.Sql.Keys.{query_row-update_self, query_row-append_row}
use pgoutbox.Db.{Message, MaintenanceLease}
use pgoutbox.Db.Messages.{delete_expired_messages}
use pgoutbox.Db.Leases.{
  find_lease, is_lease_expired, insert_maintenance_lease_if_absent,
  select_maintenance_lease_for_update, update_maintenance_lease, held_from,
}
use pgoutbox.World.{World, Result, ok}
use pgoutbox.Outbox.{Outbox}
use pgoutbox.Outbox.Maintenance.{is_held_by_other}
use pgoutbox.Outbox.Maintenance.Cleanup.{
  Cleans, stopped, kept_out, cleaned_up, run_maintenance-Cleans, lease, leased, cleaned,
  mem-cleaned, cleanup_result, after_cleanup,
}

module _ (o : Outbox) (topic : String) (ttl : ℕ) (w : World) where
  abbrev cutoff : ℕ
  cutoff = w.now - w.maintenance_lease_timeout

  -- The locked row of a lease that is stored.
  lease-stored :
      (l : MaintenanceLease)
      → find_lease topic w.db.maintenance_leases ≡ some l
      → lease o topic ttl w
        ≡ some (record {
          holder_id = l.holder_id;
          lease_expired = is_lease_expired w.db_now cutoff w.db.consumer_sessions l;
        })
  unfolding select_maintenance_lease_for_update insert_maintenance_lease_if_absent
  lease-stored l there =
      rw (there, insert_maintenance_lease_if_absent)
        (rw (there, select_maintenance_lease_for_update) refl)

  clash : {b : Bool} → b ≡ true → b ≡ false → ⊥
  clash p q = let e = sym p ∙ q in cc

  foreign_held :
      (l : MaintenanceLease)
      → l.holder_id ≢ o.instance_id
      → is_lease_expired w.db_now cutoff w.db.consumer_sessions l ≡ false
      → is_held_by_other o.instance_id (record {
        holder_id = l.holder_id;
        lease_expired = is_lease_expired w.db_now cutoff w.db.consumer_sessions l;
      })
        ≡ true
  unfolding is_held_by_other
  foreign_held l foreign live = rw (==-false l.holder_id o.instance_id foreign) (ap not live)

  young :
      (m : Message)
      → m.topic ≡ topic
      → not (m.topic == topic && ltb m.inserted_at (w.now - ttl)) ≡ true
      → w.now ≤ m.inserted_at + ttl
  young m same h = ground (arith, h, (text_test.same_iff m.topic topic).1 same)

  -- While another instance holds the topic's maintenance lease and it has not expired, runMaintenance
  -- changes nothing and does not succeed.
  pub cleanup_kept_out :
      (l : MaintenanceLease)
      → find_lease topic w.db.maintenance_leases ≡ some l
      → l.holder_id ≢ o.instance_id
      → is_lease_expired w.db_now cutoff w.db.consumer_sessions l ≡ false
      → (after_cleanup o topic ttl w).db ≡ w.db × (cleanup_result o topic ttl w ≢ ok tt)
  unfolding is_held_by_other
  cleanup_kept_out l there foreign live = by_end (run_maintenance-Cleans o topic ttl w).at
    where
      by_end :
          {r : Result (Unit {0})} {w' : World}
          → Cleans o topic ttl w r w'
          → (w'.db ≡ w.db) × (r ≢ ok tt)
      by_end (stopped e bad d) = (d, λ won. cc)
      by_end (kept_out _ _ _ bad d) = (d, λ won. cc)
      by_end (cleaned_up row e unheld _ _) =
          let same = sym (lease-stored l there) ∙ e in
          absurd (
            clash (foreign_held l foreign live)
              (ap (is_held_by_other o.instance_id) (Option.some-injective _ _ same) ∙ unheld))

  -- The insert leaves a lease row for the topic.
  pub leased-found :
      (l : MaintenanceLease) × (find_lease topic (leased o topic ttl w).maintenance_leases ≡ some l)
  unfolding insert_maintenance_lease_if_absent
  leased-found = elim (Option-cases (find_lease topic w.db.maintenance_leases)) [
    | inl absent ↦ (
      record { topic = topic; holder_id = o.instance_id; acquired_at = w.db_now },
      rw (absent, insert_maintenance_lease_if_absent)
          (query_row-append_row (λ (l : MaintenanceLease). l.topic == topic) w.db.maintenance_leases
            _ absent (==_refl topic)),
    )
    | inr (l, there) ↦ (l, rw (there, insert_maintenance_lease_if_absent) there)
  ]

  pub stored_lease :
      Option.map
        (λ (l : MaintenanceLease). l.holder_id)
        (find_lease topic (cleaned o topic ttl w).maintenance_leases)
      ≡ some o.instance_id
  unfolding delete_expired_messages update_maintenance_lease
  stored_lease =
      let (l, there) = leased-found in
      ap (Option.map (λ (l : MaintenanceLease). l.holder_id)) (
        query_row-update_self (λ (l : MaintenanceLease). l.topic == topic)
          (held_from w.db_now o.instance_id) (leased o topic ttl w).maintenance_leases (λ l e. e)
        ∙ ap (Option.map (held_from w.db_now o.instance_id)) there)

  -- When runMaintenance succeeds, this instance holds the topic's maintenance lease, and no message of
  -- the topic that is left is older than the time to live by this instance's clock.
  pub cleanup_complete :
      cleanup_result o topic ttl w ≡ ok tt
      → (Option.map
            (λ (l : MaintenanceLease). l.holder_id)
            (find_lease topic (after_cleanup o topic ttl w).db.maintenance_leases)
          ≡ some o.instance_id)
        × ((m : Message)
            → Mem m (after_cleanup o topic ttl w).db.messages
            → m.topic ≡ topic
            → w.now ≤ m.inserted_at + ttl)
  cleanup_complete won = by_end won (run_maintenance-Cleans o topic ttl w).at
    where
      by_end :
          {r : Result (Unit {0})} {w' : World}
          → r ≡ ok tt
          → Cleans o topic ttl w r w'
          → (Option.map
                (λ (l : MaintenanceLease). l.holder_id)
                (find_lease topic w'.db.maintenance_leases)
              ≡ some o.instance_id)
            × ((m : Message) → Mem m w'.db.messages → m.topic ≡ topic → w.now ≤ m.inserted_at + ttl)
      by_end won (stopped e bad _) = cc
      by_end won (kept_out _ _ _ bad _) = cc
      by_end won (cleaned_up l e _ _ d) =
          rw d (stored_lease, λ m kept same. young m same ((mem-cleaned o topic ttl w m).0 kept).1)
