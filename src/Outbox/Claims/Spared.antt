-- ===== src/Outbox/Claims/Spared.antt =====
-- Which maintenance leases a claim takes over.
use mathlib.Core.List.{mem-append_left, mem-map_of_mem, mem-cast}
use pgoutbox.Prelude.{
  ℕ, ◌-◌, ◌+◌, String, ◌≡◌, refl, ◌∙◌, Bool, false, ◌||◌, inl, inr, List, [], ◌∷◌, Mem, length, leb,
  arith, Option-cases, ◌==◌, number_test, text_test, if◌then◌else◌,
}
use pgoutbox.Sql.{update_where}
use pgoutbox.Db.{Db, MaintenanceLease, ConsumerSession}
use pgoutbox.Db.Leases.{
  find_lease, is_lease_expired, is_claimable, held_from, insert_maintenance_lease_if_absent,
  insert_maintenance_leases, claim_maintenance_leases,
}
use pgoutbox.World.{World, Env, rest}
use pgoutbox.World.Rules.{Gives, gets_rule, pure_rule, if_rule, pool_query_rule}
use pgoutbox.World.Keeps.{bind_rule, recovered_rule, returning_rule}
use pgoutbox.Outbox.{Outbox}
use pgoutbox.Outbox.Claims.{
  ClaimClass, claim_unleased, claim_stale, claim_budget, claim_class_share, claim_counted,
  claim_topics,
}

module _ (l : MaintenanceLease) (now : ℕ) (holder : ℕ) where
  mem-insert_lease :
      (topic : String) (db : Db)
      → Mem l db.maintenance_leases
      → Mem l (insert_maintenance_lease_if_absent now topic holder db).maintenance_leases
        × ((insert_maintenance_lease_if_absent now topic holder db).consumer_sessions
            ≡ db.consumer_sessions)
  unfolding insert_maintenance_lease_if_absent
  mem-insert_lease topic db m = elim (Option-cases (find_lease topic db.maintenance_leases)) [
    | inl absent ↦ rw (absent, insert_maintenance_lease_if_absent) (mem-append_left _ m, refl)
    | inr (x, there) ↦ rw (there, insert_maintenance_lease_if_absent) (m, refl)
  ]

  mem-insert_leases :
      (topics : List String) (db : Db)
      → Mem l db.maintenance_leases
      → Mem l (insert_maintenance_leases now topics holder db).0.maintenance_leases
        × ((insert_maintenance_leases now topics holder db).0.consumer_sessions
            ≡ db.consumer_sessions)
  unfolding insert_maintenance_leases
  mem-insert_leases [] db m = (m, refl)
  mem-insert_leases (t ∷ ts) db m =
      let (kept, same) = mem-insert_lease t db m in
      let (kept_on, same_on) =
        mem-insert_leases ts (insert_maintenance_lease_if_absent now t holder db) kept in
      (kept_on, same_on ∙ same)

  -- An update that a row is not selected for keeps the row.
  mem-update_other :
      (p : MaintenanceLease → Bool) (f : MaintenanceLease → MaintenanceLease)
      (rows : List MaintenanceLease)
      → p l ≡ false
      → Mem l rows
      → Mem l (update_where p f rows)
  mem-update_other p f rows out m =
      mem-cast (rw out refl) (mem-map_of_mem (λ r. if p r then f r else r) m)

  mem-claim :
      (locked : String → Bool) (cutoff : ℕ) (topics : List String) (db : Db)
      → is_lease_expired now cutoff db.consumer_sessions l ≡ false
      → Mem l db.maintenance_leases
      → Mem l (claim_maintenance_leases locked now cutoff topics holder db).0.maintenance_leases
  unfolding claim_maintenance_leases is_claimable
  mem-claim locked cutoff topics db live m =
      mem-update_other (is_claimable locked now cutoff topics db.consumer_sessions)
        (held_from now holder) db.maintenance_leases (ground (arith, live)) m

module _ (l : MaintenanceLease) (env : Env) (sessions : List ConsumerSession)
    (live : is_lease_expired env.db_now (env.now - env.maintenance_lease_timeout) sessions l
      ≡ false) where
  -- The lease is still there, and is judged as before.
  record Spared (v : World) : Type 0 where
    same_env : v.env ≡ env
    same_sessions : v.db.consumer_sessions ≡ sessions
    stored : Mem l v.db.maintenance_leases

  claim_unleased-Spared :
      (o : Outbox) (budget : ℕ) (topics : List String) (v : World)
      → Spared v
      → Gives (claim_unleased o budget topics) v (λ r v. Spared v)
  unfolding claim_unleased
  claim_unleased-Spared o budget topics v s =
      if_rule (length topics == 0) (λ _. pure_rule [] s)
        (λ _. gets_rule _ _ (
          recovered_rule [] _ (
            returning_rule _
              (record { same_env = s.same_env; same_sessions = s.same_sessions; stored = s.stored })
              (let (kept, same) = mem-insert_leases l v.db_now o.instance_id _ v.db s.stored in
                record {
                  same_env = s.same_env;
                  same_sessions = same ∙ s.same_sessions;
                  stored = kept;
                }))))

  still_live :
      (v : World)
      → Spared v
      → is_lease_expired v.db_now (v.now - v.maintenance_lease_timeout) v.db.consumer_sessions l
        ≡ false
  still_live v s = rw s.same_env (rw s.same_sessions live)

  claim_stale-Spared :
      (o : Outbox) (budget : ℕ) (topics : List String) (v : World)
      → Spared v
      → Gives (claim_stale o budget topics) v (λ r v. Spared v)
  unfolding claim_stale claim_maintenance_leases
  claim_stale-Spared o budget topics v s =
      if_rule (leb budget 0 || length topics == 0) (λ _. pure_rule [] s)
        (λ _. gets_rule _ _ (
          gets_rule _ _ (
            gets_rule _ _ (
              recovered_rule [] _ (
                returning_rule _
                  (record {
                    same_env = s.same_env;
                    same_sessions = s.same_sessions;
                    stored = s.stored;
                  })
                  (record {
                    same_env = s.same_env;
                    same_sessions = s.same_sessions;
                    stored =
                        mem-claim l v.db_now o.instance_id v.locked_leases
                          (v.now - v.maintenance_lease_timeout) _ v.db (still_live v s) s.stored;
                  }))))))

  module _ (shuffle : List String → List String) (o : Outbox) where
    claim_class_share-Spared :
        (class : ClaimClass) (instances : ℕ) (v : World)
        → Spared v
        → Gives (claim_class_share shuffle o class instances) v (λ r v. Spared v)
    unfolding claim_class_share
    claim_class_share-Spared class instances v s =
        if_rule (length class.unleased + length class.stale == 0) (λ _. pure_rule [] s)
          (λ _.
            bind_rule _ _
              (claim_unleased-Spared o (claim_budget class instances) (shuffle class.unleased) v s)
              (λ won u su.
                bind_rule _ _
                  (claim_stale-Spared o (claim_budget class instances - length won)
                    (shuffle class.stale) u su)
                  (λ more x sx. pure_rule _ sx)))

    claim_topics-Spared :
        (explicit dflt : ClaimClass) (v : World)
        → Spared v
        → Gives (claim_topics shuffle o explicit dflt) v (λ r v. Spared v)
    unfolding claim_topics claim_counted
    claim_topics-Spared explicit dflt v s =
        if_rule
          (length explicit.unleased
              + length explicit.stale
              + length dflt.unleased
              + length dflt.stale
            == 0)
          (λ _. pure_rule [] s)
          (λ _. recovered_rule [] _ (
            gets_rule _ _ (
              pool_query_rule _ _ (λ c. same s)
                (bind_rule _ _ (claim_class_share-Spared explicit _ _ (same s)) (λ won u su.
                  bind_rule _ _ (claim_class_share-Spared dflt _ u su)
                    (λ more x sx. pure_rule _ sx))))))
      where
        same : Spared v → Spared (rest v)
        same s = record {
          same_env = s.same_env;
          same_sessions = s.same_sessions;
          stored = s.stored;
        }

-- Whatever the order of the claims, the locks of others and the answers of the database, claimTopics
-- leaves each maintenance lease as it is whose holder is live: its session not lapsed, or its lease
-- young where it has none.
pub claims_spare_live_leases :
    (shuffle : List String → List String) (o : Outbox) (explicit dflt : ClaimClass) (w : World)
    (l : MaintenanceLease)
    → Mem l w.db.maintenance_leases
    → is_lease_expired w.db_now (w.now - w.maintenance_lease_timeout) w.db.consumer_sessions l
      ≡ false
    → Mem l (claim_topics shuffle o explicit dflt w).1.db.maintenance_leases
claims_spare_live_leases shuffle o explicit dflt w l stored live =
    (claim_topics-Spared l w.env w.db.consumer_sessions live shuffle o explicit dflt w
      (record { same_env = refl; same_sessions = refl; stored = stored })).at.stored
