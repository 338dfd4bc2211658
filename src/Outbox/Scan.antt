-- ===== src/Outbox/Scan.antt =====
-- scanTopics and runTopicScanner of outbox.go: one tick of the scanner, and its loop.
pub mod Spared
pub mod Constraints
pub mod Collected
pub mod Started
use pgoutbox.Prelude.{
  ℕ, ◌+◌, ◌-◌, String, Bool, true, false, Option, none, some, List, [], ◌∷◌, ◌++◌, leb, ltb,
  if◌then◌else◌, ℤ, pos_part,
}
use pgoutbox.Sql.{coalesce_or}
use pgoutbox.Db.Listing.{get_topics_with_messages}
use pgoutbox.Db.Sessions.{delete_expired_consumer_sessions}
use pgoutbox.Db.Leases.{
  GetMaintenanceCandidateTopicsRow, get_maintenance_candidate_topics, is_positive,
}
use pgoutbox.World.{
  World, Result, ok, err, M, pure, gets, ◌>>=◌, ◌>>◌, attempt, logged, pool_exec, pool_query,
}
use pgoutbox.Outbox.{Outbox}
use pgoutbox.Outbox.Claims.{ClaimClass, claim_topics}
use pgoutbox.Outbox.Loops.{ManagedTopic, Ttls, reconcile_loops, reap_exited_loops}
use pgoutbox.Outbox.Lease.{Wake, wake_up}

-- maintenanceCatchupInterval, consumerSessionRetention and maintenanceActivitySlack
pub record ScanSettings : Type 0 where
  pub catchup_interval : ℕ
  pub session_retention : ℕ
  pub activity_slack : ℕ

-- `time.Since(lastCatchup) >= maintenanceCatchupInterval.Load()`; `none` is the zero time.
abbrev pub is_catchup_due : ℕ → ℕ → Option ℕ → Bool
is_catchup_due interval now none = true
is_catchup_due interval now (some last) = leb (last + interval) now

-- `ttls`, `held` and the two classes, as the loop over the candidates fills them.
pub record Candidates : Type 0 where
  pub ttls : Ttls
  pub held : List String
  pub explicit : ClaimClass
  pub dflt : ClaimClass

abbrev pub no_candidates : Candidates
no_candidates =
    let empty : ClaimClass = record { candidates = 0; held = 0; unleased = []; stale = [] } in
    record { ttls = []; held = []; explicit = empty; dflt = empty }

-- One candidate, counted in its class.
unfoldable pub count_candidate : GetMaintenanceCandidateTopicsRow → ClaimClass → ClaimClass
count_candidate c class =
    let counted : ClaimClass = record class { candidates = class.candidates + 1 } in
    if c.held_by_me
    then record counted { held = class.held + 1 }
    else if c.unleased
    then record counted { unleased = class.unleased ++ c.topic ∷ [] }
    else if c.lease_expired
    then record counted { stale = class.stale ++ c.topic ∷ [] }
    else counted

-- One candidate: it has the expiration of its row, or the default one, and counts in the class of that.
unfoldable pub classify : ℤ → GetMaintenanceCandidateTopicsRow → Candidates → Candidates
unfolding count_candidate
classify default_ttl c cs =
    let ttl = coalesce_or c.expiration_nanos default_ttl in
    if is_positive ttl
    then record {
      ttls = (c.topic, pos_part ttl) ∷ cs.ttls;
      held = if c.held_by_me then cs.held ++ c.topic ∷ [] else cs.held;
      explicit = elim c.expiration_nanos [
        | none ↦ cs.explicit
        | some _ ↦ count_candidate c cs.explicit
      ];
      dflt = elim c.expiration_nanos [ none ↦ count_candidate c cs.dflt | some _ ↦ cs.dflt ];
    }
    else cs

-- The loop over the candidates.
unfoldable pub classify_all : ℤ → List GetMaintenanceCandidateTopicsRow → Candidates → Candidates
unfolding classify
classify_all default_ttl [] cs = cs
classify_all default_ttl (c ∷ rows) cs = classify_all default_ttl rows (classify default_ttl c cs)

-- What a successful listing of the topics with messages gives.
unfoldable pub after_listing : Option ℕ → Result (List String) → M (Option ℕ × List String)
after_listing last (err _) = pure (last, [])
after_listing last (ok topics) = do now ← gets (λ w. w.now); pure (some now, topics)

-- The catch-up sweep, and the sweep of expired sessions that follows it. `less` is the collation.
unfoldable pub catch_up :
    (String → String → Bool) → ScanSettings → Option ℕ → M (Option ℕ × List String)
unfolding after_listing
catch_up less settings last = do
  topics ← attempt (pool_query (get_topics_with_messages less))
  swept ← after_listing last topics
  cutoff ← gets (λ w. w.now - settings.session_retention)
  logged (pool_exec (delete_expired_consumer_sessions cutoff))
  pure swept

abbrev pub default_nanos : Outbox → Option ℤ
default_nanos o = if is_positive o.default_expiration then some o.default_expiration else none

-- `shuffle` is rand.Shuffle.
module _ (shuffle : List String → List String) where
  unfoldable pub after_candidates :
      Outbox
      → Option ℕ
      → List ManagedTopic
      → Result (List GetMaintenanceCandidateTopicsRow)
      → M (Option ℕ × List ManagedTopic)
  unfolding classify_all claim_topics
  after_candidates o last managed (err _) = pure (last, managed)
  after_candidates o last managed (ok rows) =
      let cs = classify_all o.default_expiration rows no_candidates in
      do
        won ← claim_topics shuffle o cs.explicit cs.dflt
        pure (last, reconcile_loops cs.ttls (cs.held ++ won) managed)

  -- scanTopics, with the map `managed` passed on.
  unfoldable pub scan_topics :
      (String → String → Bool)
      → Outbox
      → ScanSettings
      → Option ℕ
      → List ManagedTopic
      → M (Option ℕ × List ManagedTopic)
  unfolding catch_up after_candidates
  scan_topics less o settings last managed =
      let reaped = reap_exited_loops managed in
      do
        now ← gets (λ w. w.now)
        swept ←
            if is_catchup_due settings.catchup_interval now last
            then catch_up less settings last
            else pure (last, [])
        let (caught_up, include) = swept
        db_now ← gets (λ w. w.db_now)
        cutoff ← gets (λ w. w.now - w.maintenance_lease_timeout)
        rows ← attempt (
            pool_query (
              get_maintenance_candidate_topics db_now cutoff o.instance_id (default_nanos o) include
                settings.activity_slack))
        after_candidates o caught_up reaped rows

  -- The wake-up after a tick, and the loops that have exited or gone on meanwhile.
  pub record Tick : Type 0 where
    pub wake : World → Wake
    pub loops : List ManagedTopic → List ManagedTopic

  -- runTopicScanner: a tick, and one more after each wait in `ticks`; then its context has ended.
  unfoldable pub scanner_rounds :
      (String → String → Bool)
      → Outbox
      → ScanSettings
      → List Tick
      → Option ℕ
      → List ManagedTopic
      → M (Option ℕ × List ManagedTopic)
  unfolding scan_topics
  scanner_rounds less o settings [] last managed = scan_topics less o settings last managed
  scanner_rounds less o settings (k ∷ ticks) last managed =
      let again = scanner_rounds less o settings ticks in
      do
        scanned ← scan_topics less o settings last managed
        λ w. again scanned.0 (k.loops scanned.1) (wake_up (k.wake w) w)

  -- A live context, no sweep yet and no loop.
  unfoldable pub run_topic_scanner :
      (String → String → Bool)
      → Outbox
      → ScanSettings
      → List Tick
      → M (Option ℕ × List ManagedTopic)
  unfolding scanner_rounds
  run_topic_scanner less o settings ticks = scanner_rounds less o settings ticks none []
