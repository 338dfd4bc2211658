-- ===== src/Outbox/Scan/Spared.antt =====
-- What a scan leaves alone: the maintenance leases of live instances.
use mathlib.Core.Option
use pgoutbox.Prelude.{
  ℕ, ◌+◌, ◌-◌, ◌≤◌, String, ◌≡◌, refl, Bool, false, Bool-cases, inl, inr, Option, none, some, List,
  [], ◌∷◌, Mem, arith, ltb, Option-cases, ◌==◌, number_test,
}
use pgoutbox.Sql.{query_row, delete_where}
use pgoutbox.Db.{Db, ConsumerSession, MaintenanceLease}
use pgoutbox.Db.Sessions.{find_session, delete_expired_consumer_sessions}
use pgoutbox.Db.Leases.{is_lease_expired, GetMaintenanceCandidateTopicsRow}
use pgoutbox.World.{World, Result, ok, err, rest}
use pgoutbox.World.Rules.{Gives, gets_rule, pure_rule, if_rule, logged_rule}
use pgoutbox.World.Keeps.{bind_rule, then_rule, attempted_rule, querying_rule, executing_rule}
use pgoutbox.Outbox.{Outbox}
use pgoutbox.Outbox.Claims.Spared.{claims_spare_live_leases}
use pgoutbox.Outbox.Loops.{ManagedTopic}
use pgoutbox.Outbox.Scan.{
  ScanSettings, is_catchup_due, classify_all, no_candidates, after_listing, catch_up,
  after_candidates, scan_topics,
}

module _ (p q : ConsumerSession → Bool) where
  -- A row that a deletion leaves is still found, and none is found where none was.
  query_row-delete_where :
      (rows : List ConsumerSession) (s : ConsumerSession)
      → query_row p rows ≡ some s
      → q s ≡ false
      → query_row p (delete_where q rows) ≡ some s
  unfolding query_row
  query_row-delete_where [] s found left = found
  query_row-delete_where (r ∷ rows) s found left = elim (Bool-cases (p r)) [
    | inl hit ↦
        (let same : some r ≡ some s = (rw hit at found) in
          let keep : q r ≡ false = rw (Option.some-injective _ _ same) left in
          rw keep (rw hit same))
    | inr miss ↦
        (let later : query_row p rows ≡ some s = (rw miss at found) in
          let ih = query_row-delete_where rows s later left in
          elim (Bool-cases (q r)) [ inl gone ↦ rw gone ih | inr kept ↦ rw kept (rw miss ih) ])
  ]

  query_row-delete_none :
      (rows : List ConsumerSession)
      → query_row p rows ≡ none
      → query_row p (delete_where q rows) ≡ none
  unfolding query_row
  query_row-delete_none [] found = refl
  query_row-delete_none (r ∷ rows) found = ground (arith, query_row-delete_none rows)

-- The sweep of expired sessions does not make a live lease look abandoned, unless its cutoff is later
-- than the server's clock.
swept_live :
    (now lease_cutoff cutoff : ℕ) (db : Db) (l : MaintenanceLease)
    → cutoff ≤ now
    → is_lease_expired now lease_cutoff db.consumer_sessions l ≡ false
    → is_lease_expired now lease_cutoff
        (delete_expired_consumer_sessions cutoff db).consumer_sessions
        l
      ≡ false
unfolding is_lease_expired delete_expired_consumer_sessions
swept_live now lease_cutoff cutoff db l le live =
    elim (Option-cases (find_session l.holder_id db.consumer_sessions)) [
      | inl absent ↦
          (let still =
              query_row-delete_none (λ s. s.consumer_id == l.holder_id)
                (λ s. ltb s.expires_at cutoff) db.consumer_sessions absent in
            rw still (rw absent at live))
      | inr (s, there) ↦
          (let young : ltb s.expires_at now ≡ false = (rw there at live) in
            let still =
              query_row-delete_where (λ s. s.consumer_id == l.holder_id)
                (λ s. ltb s.expires_at cutoff) db.consumer_sessions s there (ground arith) in
            rw still young)
    ]

module _ (shuffle : List String → List String) (less : String → String → Bool) (o : Outbox)
    (settings : ScanSettings) (w : World) (l : MaintenanceLease)
    (clocks : w.now ≤ w.db_now + settings.session_retention) where
  -- The lease is stored as it was, and judged live.
  record Live (v : World) : Type 0 where
    same_env : v.env ≡ w.env
    stored : Mem l v.db.maintenance_leases
    live :
        is_lease_expired w.db_now (w.now - w.maintenance_lease_timeout) v.db.consumer_sessions l
        ≡ false

  Live-rest : (v : World) → Live v → Live (rest v)
  Live-rest v s = record { same_env = s.same_env; stored = s.stored; live = s.live }

  after_listing-Live :
      (last : Option ℕ) (topics : Result (List String)) (v : World)
      → Live v
      → Gives (after_listing last topics) v (λ r u. Live u)
  unfolding after_listing
  after_listing-Live last (err e) v s = pure_rule _ s
  after_listing-Live last (ok topics) v s = gets_rule _ _ (pure_rule _ s)

  catch_up-Live :
      (last : Option ℕ) (v : World) → Live v → Gives (catch_up less settings last) v (λ r u. Live u)
  unfolding catch_up delete_expired_consumer_sessions
  catch_up-Live last v s =
      bind_rule _ _ (attempted_rule _ (querying_rule _ (Live-rest v s))) (λ topics u su.
        bind_rule _ _ (after_listing-Live last topics u su) (λ swept x sx. gets_rule _ _ (
          bind_rule _ _
            (logged_rule _ (
              executing_rule _ (Live-rest x sx) (record {
                same_env = sx.same_env;
                stored = sx.stored;
                live = swept_live w.db_now _ _ x.db l (rw sx.same_env (omega arith)) sx.live;
              })))
            (λ _ y sy. pure_rule _ sy))))

  after_candidates-Live :
      (last : Option ℕ) (managed : List ManagedTopic)
      (rows : Result (List GetMaintenanceCandidateTopicsRow)) (v : World)
      → Live v
      → Gives
          (after_candidates shuffle o last managed rows)
          v
          (λ r u. Mem l u.db.maintenance_leases)
  unfolding after_candidates
  after_candidates-Live last managed (err e) v s = pure_rule _ s.stored
  after_candidates-Live last managed (ok rows) v s =
      let cs = classify_all o.default_expiration rows no_candidates in
      bind_rule _ _
        (record {
          at =
              claims_spare_live_leases shuffle o cs.explicit cs.dflt v l s.stored
                (rw s.same_env s.live);
        })
        (λ won u su. pure_rule _ su)

  scan_topics-Live :
      (last : Option ℕ) (managed : List ManagedTopic)
      → Live w
      → Gives
          (scan_topics shuffle less o settings last managed)
          w
          (λ r u. Mem l u.db.maintenance_leases)
  unfolding scan_topics
  scan_topics-Live last managed s = gets_rule _ _ (
      then_rule _ _
        (if_rule (is_catchup_due settings.catchup_interval w.now last) (λ _. catch_up-Live last w s)
          (λ _. pure_rule _ s))
        (λ e v sv. sv.stored)
        (λ swept v sv. gets_rule _ _ (
          gets_rule _ _ (
            then_rule _ _ (attempted_rule _ (querying_rule _ (Live-rest v sv)))
              (λ e u su. su.stored) (λ rows u su. after_candidates-Live swept.0 _ rows u su)))))

-- Whatever the database answers, the locks of others and the order of the claims, a scan leaves each
-- maintenance lease as it is whose holder is live. The instance's clock must not be ahead of the
-- server's by more than the retention of sessions.
pub scan_spares_live_leases :
    (shuffle : List String → List String) (less : String → String → Bool) (o : Outbox)
    (settings : ScanSettings) (last : Option ℕ) (managed : List ManagedTopic) (w : World)
    (l : MaintenanceLease)
    → w.now ≤ w.db_now + settings.session_retention
    → Mem l w.db.maintenance_leases
    → is_lease_expired w.db_now (w.now - w.maintenance_lease_timeout) w.db.consumer_sessions l
      ≡ false
    → Mem l (scan_topics shuffle less o settings last managed w).1.db.maintenance_leases
scan_spares_live_leases shuffle less o settings last managed w l clocks stored live =
    (scan_topics-Live shuffle less o settings w l clocks last managed
      (record { same_env = refl; stored = stored; live = live })).at
