-- ===== src/Outbox/Scan/Constraints.antt =====
-- The scan, the heartbeat and the grace-period write keep the constraints of the schema.
use pgoutbox.Prelude.{
  ℕ, ◌+◌, ◌-◌, String, Bool, ◌||◌, ◌==◌, number_test, text_test, leb, refl, Option, List, [], ◌∷◌,
  length,
}
use pgoutbox.Sql.Keys.{UniqueKeys-select, map-update_where}
use pgoutbox.Db.{Db, MaintenanceLease, ConsumerSession}
use pgoutbox.Db.Leases.{
  held_from, insert_maintenance_leases, claim_maintenance_leases, is_claimable,
  GetMaintenanceCandidateTopicsRow,
}
use pgoutbox.Db.Sessions.{delete_expired_consumer_sessions}
use pgoutbox.Db.IsWellFormed.{
  IsWellFormed, sessions-IsWellFormed, upsert_consumer_session-IsWellFormed,
  renew_topic_exclusive_consumer-IsWellFormed,
}
use pgoutbox.World.{World, M, Result, ok, err}
use pgoutbox.World.Rules.{Gives, gets_rule, pure_rule, if_rule, logged_rule}
use pgoutbox.World.Keeps.{
  bind_rule, recovered_rule, returning_rule, executing_rule, attempted_rule, querying_rule,
}
use pgoutbox.Outbox.{Outbox}
use pgoutbox.Outbox.Lease.{upsert_own_session, own_session, expire_exclusive_lease_after_grace}
use pgoutbox.Outbox.Claims.{
  ClaimClass, claim_unleased, claim_stale, claim_budget, claim_class_share, claim_counted,
  claim_topics,
}
use pgoutbox.Outbox.Loops.{ManagedTopic}
use pgoutbox.Outbox.Maintenance.Constraints.{
  leases-IsWellFormed_with, insert_maintenance_lease_if_absent-IsWellFormed,
}
use pgoutbox.Outbox.Scan.{
  ScanSettings, is_catchup_due, classify_all, no_candidates, after_listing, catch_up,
  after_candidates, scan_topics,
}

-- What an action leaves is well formed.
abbrev pub Keeps : {A : Type 0} → M A → World → Type 0
Keeps m w = Gives m w (λ r v. IsWellFormed v.db)

insert_maintenance_leases-IsWellFormed :
    (now : ℕ) (topics : List String) (holder : ℕ) {db : Db}
    → IsWellFormed db
    → IsWellFormed (insert_maintenance_leases now topics holder db).0
unfolding insert_maintenance_leases
insert_maintenance_leases-IsWellFormed now [] holder v = v
insert_maintenance_leases-IsWellFormed now (t ∷ ts) holder v =
    insert_maintenance_leases-IsWellFormed now ts holder
      (insert_maintenance_lease_if_absent-IsWellFormed v now t holder)

claim_maintenance_leases-IsWellFormed :
    (locked : String → Bool) (now cutoff : ℕ) (topics : List String) (holder : ℕ) {db : Db}
    → IsWellFormed db
    → IsWellFormed (claim_maintenance_leases locked now cutoff topics holder db).0
unfolding claim_maintenance_leases
claim_maintenance_leases-IsWellFormed locked now cutoff topics holder {db} v =
    leases-IsWellFormed_with v _ (
      rw
        (map-update_where (λ (l : MaintenanceLease). l.topic)
          (is_claimable locked now cutoff topics db.consumer_sessions) (held_from now holder)
          db.maintenance_leases (λ l. refl))
        v.lease_keys)

sweep-IsWellFormed :
    (cutoff : ℕ) {db : Db}
    → IsWellFormed db
    → IsWellFormed (delete_expired_consumer_sessions cutoff db)
unfolding delete_expired_consumer_sessions
sweep-IsWellFormed cutoff {db} v = sessions-IsWellFormed v _ (
    UniqueKeys-select (λ (s : ConsumerSession). s.consumer_id) _ db.consumer_sessions
      v.session_keys)

module _ (o : Outbox) where
  claim_unleased-Keeps :
      (budget : ℕ) (topics : List String) (w : World)
      → IsWellFormed w.db
      → Keeps (claim_unleased o budget topics) w
  unfolding claim_unleased
  claim_unleased-Keeps budget topics w v =
      if_rule (length topics == 0) (λ _. pure_rule [] v)
        (λ _. gets_rule _ _ (
          recovered_rule [] _ (
            returning_rule _ v
              (insert_maintenance_leases-IsWellFormed w.db_now _ o.instance_id v))))

  claim_stale-Keeps :
      (budget : ℕ) (topics : List String) (w : World)
      → IsWellFormed w.db
      → Keeps (claim_stale o budget topics) w
  unfolding claim_stale
  claim_stale-Keeps budget topics w v =
      if_rule (leb budget 0 || length topics == 0) (λ _. pure_rule [] v)
        (λ _. gets_rule _ _ (
          gets_rule _ _ (
            gets_rule _ _ (
              recovered_rule [] _ (
                returning_rule _ v (
                  claim_maintenance_leases-IsWellFormed w.locked_leases w.db_now _ _ o.instance_id
                    v))))))

  pub heartbeat-Keeps : (w : World) → IsWellFormed w.db → Keeps (upsert_own_session o) w
  unfolding upsert_own_session
  heartbeat-Keeps w v =
      gets_rule _ _ (executing_rule _ v (upsert_consumer_session-IsWellFormed v (own_session o w)))

  pub grace-Keeps :
      (topic : String) (w : World)
      → IsWellFormed w.db
      → Keeps (expire_exclusive_lease_after_grace o topic) w
  unfolding expire_exclusive_lease_after_grace
  grace-Keeps topic w v = gets_rule _ _ (
      gets_rule _ _ (
        logged_rule _ (
          executing_rule _ v
            (renew_topic_exclusive_consumer-IsWellFormed v topic o.instance_id _))))

  module _ (shuffle : List String → List String) where
    claim_class_share-Keeps :
        (class : ClaimClass) (instances : ℕ) (w : World)
        → IsWellFormed w.db
        → Keeps (claim_class_share shuffle o class instances) w
    unfolding claim_class_share
    claim_class_share-Keeps class instances w v =
        if_rule (length class.unleased + length class.stale == 0) (λ _. pure_rule [] v)
          (λ _.
            bind_rule _ _
              (claim_unleased-Keeps (claim_budget class instances) (shuffle class.unleased) w v)
              (λ won u vu.
                bind_rule _ _
                  (claim_stale-Keeps (claim_budget class instances - length won)
                    (shuffle class.stale) u vu)
                  (λ more x vx. pure_rule _ vx)))

    claim_topics-Keeps :
        (explicit dflt : ClaimClass) (w : World)
        → IsWellFormed w.db
        → Keeps (claim_topics shuffle o explicit dflt) w
    unfolding claim_topics claim_counted
    claim_topics-Keeps explicit dflt w v =
        if_rule
          (length explicit.unleased
              + length explicit.stale
              + length dflt.unleased
              + length dflt.stale
            == 0)
          (λ _. pure_rule [] v)
          (λ _. recovered_rule [] _ (
            gets_rule _ _ (
              bind_rule _ _ (querying_rule _ v) (λ counts u vu.
                bind_rule _ _ (claim_class_share-Keeps explicit _ u vu) (λ won x vx.
                  bind_rule _ _ (claim_class_share-Keeps dflt _ x vx)
                    (λ more y vy. pure_rule _ vy))))))

    after_candidates-Keeps :
        (last : Option ℕ) (managed : List ManagedTopic)
        (rows : Result (List GetMaintenanceCandidateTopicsRow)) (w : World)
        → IsWellFormed w.db
        → Keeps (after_candidates shuffle o last managed rows) w
    unfolding after_candidates
    after_candidates-Keeps last managed (err e) w v = pure_rule _ v
    after_candidates-Keeps last managed (ok rows) w v =
        let cs = classify_all o.default_expiration rows no_candidates in
        bind_rule _ _ (claim_topics-Keeps cs.explicit cs.dflt w v) (λ won u vu. pure_rule _ vu)

    module _ (less : String → String → Bool) (settings : ScanSettings) where
      after_listing-Keeps :
          (last : Option ℕ) (topics : Result (List String)) (w : World)
          → IsWellFormed w.db
          → Keeps (after_listing last topics) w
      unfolding after_listing
      after_listing-Keeps last (err e) w v = pure_rule _ v
      after_listing-Keeps last (ok topics) w v = gets_rule _ _ (pure_rule _ v)

      catch_up-Keeps :
          (last : Option ℕ) (w : World) → IsWellFormed w.db → Keeps (catch_up less settings last) w
      unfolding catch_up
      catch_up-Keeps last w v = bind_rule _ _ (attempted_rule _ (querying_rule _ v)) (λ topics u vu.
          bind_rule _ _ (after_listing-Keeps last topics u vu) (λ swept x vx. gets_rule _ _ (
            bind_rule _ _ (logged_rule _ (executing_rule _ vx (sweep-IsWellFormed _ vx)))
              (λ _ y vy. pure_rule _ vy))))

      pub scan_topics-Keeps :
          (last : Option ℕ) (managed : List ManagedTopic) (w : World)
          → IsWellFormed w.db
          → Keeps (scan_topics shuffle less o settings last managed) w
      unfolding scan_topics
      scan_topics-Keeps last managed w v = gets_rule _ _ (
          bind_rule _ _
            (if_rule (is_catchup_due settings.catchup_interval w.now last)
              (λ _. catch_up-Keeps last w v) (λ _. pure_rule _ v))
            (λ swept u vu. gets_rule _ _ (
              gets_rule _ _ (
                bind_rule _ _ (attempted_rule _ (querying_rule _ vu))
                  (λ rows x vx. after_candidates-Keeps swept.0 _ rows x vx)))))
