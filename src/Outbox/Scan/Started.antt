-- ===== src/Outbox/Scan/Started.antt =====
-- The maintenance loops that a scan starts.
use mathlib.Core.List.{not-mem-nil, mem-append, Mem-prop, mem-map_of_mem}
use mathlib.Core.Logic.Or
use pgoutbox.Prelude.{
  subst, ℕ, ◌-◌, String, ◌≡◌, refl, not, Bool, Option, List, [], ◌++◌, map, Mem, text_test,
  number_test,
}
use pgoutbox.Sql.Keys.{mem-map-select}
use pgoutbox.Db.Leases.{get_maintenance_candidate_topics, GetMaintenanceCandidateTopicsRow}
use pgoutbox.World.{World, Result, ok, err, database, rest}
use pgoutbox.World.Rules.{Gives, gets_rule, pure_rule, if_rule}
use pgoutbox.World.Attempts.{attempt_rule, attempt_query_rule, never_fails_rule, logged_then_rule}
use pgoutbox.Outbox.{Outbox}
use pgoutbox.Outbox.Claims.Held.{Holds, lease_key}
use pgoutbox.Outbox.Claims.Owned.{claim_topics-Owns, claimed_rule}
use pgoutbox.Outbox.Loops.{ManagedTopic, Ttls, mark, reconcile_loops, reap_exited_loops}
use pgoutbox.Outbox.Loops.Reconciled.{topic_of, topics-mark}
use pgoutbox.Outbox.Scan.{
  ScanSettings, is_catchup_due, default_nanos, classify_all, no_candidates, after_listing, catch_up,
  after_candidates, scan_topics,
}
use pgoutbox.Outbox.Scan.Collected.{started_held, Honest, classify_all-AllHeld, candidates-Honest}

module _ (shuffle : List String → List String) (less : String → String → Bool) (o : Outbox)
    (settings : ScanSettings) (managed : List ManagedTopic) where
  abbrev rows_of :
      Result (List GetMaintenanceCandidateTopicsRow) → List GetMaintenanceCandidateTopicsRow
  rows_of (ok rows) = rows
  rows_of (err e) = []

  -- A scan succeeded, and the loops that it started are of leases that the instance holds.
  record Started (r : Result (Option ℕ × List ManagedTopic)) (v : World) : Type 0 where
    last : Option ℕ
    loops : List ManagedTopic
    fine : r ≡ ok (last, loops)
    held :
        (mt : ManagedTopic)
        → Mem mt loops
        → ¬ Mem mt.topic (map topic_of managed)
        → Holds o.instance_id mt.topic v.db

  reaped : List ManagedTopic
  reaped = reap_exited_loops managed

  mem-reaped : (t : String) → Mem t (map topic_of reaped) → Mem t (map topic_of managed)
  unfolding reaped reap_exited_loops
  mem-reaped t m = mem-map-select topic_of (λ mt. not mt.exited) managed m

  reconciled-held :
      (ttls : Ttls) (held : List String) (mt : ManagedTopic) (v : World)
      → ((t : String) → Mem t held → Holds o.instance_id t v.db)
      → Mem mt (reconcile_loops ttls held reaped)
      → ¬ Mem mt.topic (map topic_of managed)
      → Holds o.instance_id mt.topic v.db
  unfolding reconcile_loops
  reconciled-held ttls held mt v all m new =
      started_held ttls Mem-prop mt held (map (mark ttls held) reaped)
        (λ k. absurd (
          new (
            mem-reaped mt.topic
              (mem-cast_list (topics-mark ttls held reaped) (mem-map_of_mem topic_of k)))))
        (all mt.topic) m
    where
      mem-cast_list : {t : String} {xs ys : List String} → xs ≡ ys → Mem t xs → Mem t ys
      mem-cast_list {t} e k = subst (Mem t) e k

  after_candidates-Started :
      (last : Option ℕ) (rows : Result (List GetMaintenanceCandidateTopicsRow)) (v : World)
      → ((c : GetMaintenanceCandidateTopicsRow) → Mem c (rows_of rows) → Honest o v.db c)
      → Gives (after_candidates shuffle o last reaped rows) v Started
  unfolding after_candidates
  after_candidates-Started last (err e) v honest = pure_rule _ (record {
    last = last;
    loops = reaped;
    fine = refl;
    held = λ mt m new. absurd (new (mem-reaped mt.topic (mem-map_of_mem topic_of m)));
  })
  after_candidates-Started last (ok rows) v honest =
      let cs = classify_all o.default_expiration rows no_candidates in
      claimed_rule o v.db _ _ (claim_topics-Owns shuffle o cs.explicit cs.dflt v)
        (λ u won ours kept. pure_rule _ (record {
          last = last;
          loops = reconcile_loops cs.ttls (cs.held ++ won) reaped;
          fine = refl;
          held = λ mt. reconciled-held cs.ttls (cs.held ++ won) mt u (λ t m.
              Or.elim Mem-prop (mem-append.0 m)
                (λ k. kept t (
                  classify_all-AllHeld o v.db o.default_expiration rows no_candidates honest
                    (λ t j. absurd (not-mem-nil j)) t k))
                (ours t));
        }))

  catch_up-fine :
      (last : Option ℕ) (w : World)
      → Gives
          (catch_up less settings last)
          w
          (λ r v. (swept : Option ℕ × List String) × (r ≡ ok swept))
  unfolding catch_up after_listing
  catch_up-fine last w = attempt_rule _ _ (λ topics v.
      never_fails_rule _ _ (listed topics v)
        (λ swept u. gets_rule _ _ (logged_then_rule _ _ (pure_rule _ (swept, refl)))))
    where
      listed :
          (topics : Result (List String)) (v : World)
          → Gives
              (after_listing last topics)
              v
              (λ r v. (swept : Option ℕ × List String) × (r ≡ ok swept))
      listed (err e) v = pure_rule _ (_, refl)
      listed (ok topics) v = gets_rule _ _ (pure_rule _ (_, refl))

  scan_topics-Started :
      (last : Option ℕ) (w : World)
      → Gives (scan_topics shuffle less o settings last managed) w Started
  unfolding scan_topics reaped
  scan_topics-Started last w = gets_rule _ _ (
      never_fails_rule _ _
        (if_rule (is_catchup_due settings.catchup_interval w.now last) (λ _. catch_up-fine last w)
          (λ _. pure_rule _ (_, refl)))
        (λ swept v. gets_rule _ _ (
          gets_rule _ _ (
            attempt_query_rule _ _
              (λ c.
                after_candidates-Started swept.0 (err (database c)) (rest v)
                  (λ x m. absurd (not-mem-nil m)))
              (after_candidates-Started swept.0
                (ok (
                  get_maintenance_candidate_topics v.db_now (v.now - v.maintenance_lease_timeout)
                    o.instance_id (default_nanos o) swept.1 settings.activity_slack v.db))
                (rest v)
                (λ x m.
                  candidates-Honest o v.db v.db_now (v.now - v.maintenance_lease_timeout)
                    (default_nanos o) swept.1 settings.activity_slack x m))))))

  -- A scan never fails. Whatever the database answers, the locks of others and the order of the claims,
  -- each maintenance loop that it starts, for a topic that had none, is of a topic whose maintenance
  -- lease this instance holds when the scan ends.
  pub scan_starts_held :
      (last : Option ℕ) (w : World)
      → let (r, v) = scan_topics shuffle less o settings last managed w in
        (last' : Option ℕ) × (loops : List ManagedTopic) × (r ≡ ok (last', loops))
        × ((mt : ManagedTopic)
            → Mem mt loops
            → ¬ Mem mt.topic (map topic_of managed)
            → Mem (mt.topic, o.instance_id) (map lease_key v.db.maintenance_leases))
  scan_starts_held last w =
      let s = (scan_topics-Started last w).at in (s.last, s.loops, s.fine, s.held)
