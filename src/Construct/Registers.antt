-- ===== src/Construct/Registers.antt =====
-- How NewOutbox ends, and what it has written then.
use pgoutbox.Prelude.{
  ℕ, String, ◌≡◌, refl, ap, ◌∙◌, true, false, Option, none, some, List, [], ◌∷◌, text_test,
  if◌then◌else◌, ℤ,
}
use pgoutbox.Sql.{coalesce}
use pgoutbox.World.{
  World, Result, ok, err, Error, M, pure, ◌>>=◌, ◌>>◌, logged, catch, pool_exec, gets, proceed,
  invalid_schema_name, raise,
}
use pgoutbox.World.Rules.{logged-ok}
use pgoutbox.Outbox.{Outbox}
use pgoutbox.Outbox.Lease.{upsert_own_session}
use pgoutbox.Db.{Db, ConsumerSession}
use pgoutbox.Db.Topics.{find_topic}
use pgoutbox.Db.Sessions.{upsert_consumer_session, find_session}
use pgoutbox.Construct.Expirations.{
  answering, publish, publish_self, registered, last_given, find_expiration-given,
  expirations-Nodup, ensure_topic_rows-publish, find_expiration,
}
use pgoutbox.Migrate.{matches_schema_name, codes, validate_schema_name, run_migrations}
use pgoutbox.Construct.{
  OutboxOpt, OutboxImplOpts, apply_outbox_opts, default_opts, new_outbox, build_outbox,
  positive_ttl, ensure_topic_rows, ensure_topic_row,
}

-- The loop over the expirations cannot fail.
ensure_topic_rows-ok : (es : List (String × ℤ)) (w : World) → (ensure_topic_rows es w).0 ≡ ok tt
unfolding ensure_topic_rows pure ◌>>=◌
ensure_topic_rows-ok [] w = refl
ensure_topic_rows-ok ((topic, ttl) ∷ es) w =
    let first = logged (ensure_topic_row topic ttl) in
    ap (λ r. (proceed r (λ _. ensure_topic_rows es) (first w).1).0)
      (logged-ok (ensure_topic_row topic ttl) w)
    ∙ ensure_topic_rows-ok es (first w).1

module _ (up : M (Unit {0})) (id : ℕ) (fs : List OutboxOpt) (w : World) where
  abbrev pub opts : OutboxImplOpts
  opts = apply_outbox_opts default_opts fs

  abbrev pub migrated : M (Unit {0})
  migrated = if opts.auto_migrate then run_migrations up opts.schema else pure tt

  -- The part after the migrations.
  register : M Outbox
  register = do
    ensure_topic_rows opts.expirations
    logged (upsert_own_session (build_outbox id opts))
    pure (build_outbox id opts)

  register-ok : (v : World) → (register v).0 ≡ ok (build_outbox id opts)
  unfolding register pure ◌>>=◌
  register-ok v =
      let rows = ensure_topic_rows opts.expirations in
      let session = logged (upsert_own_session (build_outbox id opts)) in
      let after_session = λ (_ : Unit {0}). pure (build_outbox id opts) in
      ap (λ r. (proceed r (λ _. session >> pure (build_outbox id opts)) (rows v).1).0)
        (ensure_topic_rows-ok opts.expirations v)
      ∙ ap (λ r. (proceed r after_session (session (rows v).1).1).0)
          (logged-ok (upsert_own_session (build_outbox id opts)) (rows v).1)

  new_outbox-invalid :
      matches_schema_name (codes opts.schema) ≡ false
      → new_outbox up id fs w ≡ (err invalid_schema_name, w)
  unfolding new_outbox validate_schema_name raise ◌>>=◌
  new_outbox-invalid bad = rw (bad, new_outbox) refl

  validate-good :
      matches_schema_name (codes opts.schema) ≡ true
      → validate_schema_name opts.schema w ≡ (ok tt, w)
  unfolding validate_schema_name pure
  validate-good good = rw (good, validate_schema_name) refl

  after_check :
      matches_schema_name (codes opts.schema) ≡ true
      → new_outbox up id fs w ≡ proceed (migrated w).0 (λ _. register) (migrated w).1
  unfolding new_outbox register ◌>>=◌
  after_check good =
      ap (λ (x : Result (Unit {0}) × World). proceed x.0 (λ _. migrated >>= λ _. register) x.1)
        (validate-good good)

  -- NewOutbox refuses a schema name that the pattern does not accept before it touches the database. With
  -- another it returns the outbox of its options whenever the migrations that it was asked to run
  -- succeed, and their error otherwise: no answer of the database to what it writes afterwards makes it
  -- fail.
  pub new_outbox_outcome :
      (matches_schema_name (codes opts.schema) ≡ false
        → new_outbox up id fs w ≡ (err invalid_schema_name, w))
      × (matches_schema_name (codes opts.schema) ≡ true
          → (migrated w).0 ≡ ok tt
          → (new_outbox up id fs w).0 ≡ ok (build_outbox id opts))
      × ((e : Error)
          → matches_schema_name (codes opts.schema) ≡ true
          → (migrated w).0 ≡ err e
          → new_outbox up id fs w ≡ (err e, (migrated w).1))
  new_outbox_outcome = (
    new_outbox-invalid,
    λ good fine.
        ap (λ (x : Result Outbox × World). x.0)
          (after_check good ∙ ap (λ r. proceed r (λ _. register) (migrated w).1) fine)
        ∙ register-ok (migrated w).1,
    λ e good bad. after_check good ∙ ap (λ r. proceed r (λ _. register) (migrated w).1) bad,
  )

topics-upsert :
    (session : ConsumerSession) (db : Db) → (upsert_consumer_session session db).topics ≡ db.topics
unfolding upsert_consumer_session
topics-upsert session db = by_found (find_session session.consumer_id db.consumer_sessions) refl
  where
    by_found :
        (found : Option ConsumerSession)
        → find_session session.consumer_id db.consumer_sessions ≡ found
        → (upsert_consumer_session session db).topics ≡ db.topics
    by_found none e = rw (e, upsert_consumer_session) refl
    by_found (some _) e = rw (e, upsert_consumer_session) refl

register-topics :
    (up : M (Unit {0})) (id : ℕ) (fs : List OutboxOpt) (w : World)
    → (register up id fs w (answering w)).1.db.topics
      ≡ (publish w.db_now (apply_outbox_opts default_opts fs).expirations w.db).topics
unfolding register ◌>>=◌ pure logged catch upsert_own_session pool_exec gets
register-topics up id fs w =
    let opts = apply_outbox_opts default_opts fs in
    ap
      (λ (x : Result (Unit {0}) × World).
        (proceed x.0
          (λ _. logged (upsert_own_session (build_outbox id opts)) >> pure (build_outbox id opts))
          x.1).1.db.topics)
      (ensure_topic_rows-publish opts.expirations w)
    ∙ topics-upsert _ _

-- If the database answers, NewOutbox with an accepted schema name and no migrations leaves for each
-- topic of WithTopicExpiration a row with the expiration of the last such option for the topic, if it
-- is positive; a row that has an expiration already keeps it.
pub new_outbox_registers :
    (up : M (Unit {0})) (id : ℕ) (fs : List OutboxOpt) (w : World) (topic : String) (ttl : ℤ)
    → let opts = apply_outbox_opts default_opts fs in
      matches_schema_name (codes opts.schema) ≡ true
      → opts.auto_migrate ≡ false
      → last_given topic fs ≡ some ttl
      → find_topic topic (new_outbox up id fs (answering w)).1.db.topics
        ≡ some (registered w.db_now topic (positive_ttl ttl) (find_topic topic w.db.topics))
unfolding register pure find_expiration
new_outbox_registers up id fs w topic ttl good manual given =
    let v = answering w in
    let opts = apply_outbox_opts default_opts fs in
    let go = register up id fs v in
    let configured =
      find_expiration-given topic fs default_opts ∙ ap (λ g. coalesce g none) given in
    let unmigrated : migrated up id fs v ≡ pure tt =
      ap (λ b. if b then run_migrations up opts.schema else pure tt) manual in
    ap (λ (x : Result Outbox × World). find_topic topic x.1.db.topics)
      (after_check up id fs v good
        ∙ ap (λ (m : M (Unit {0})). proceed (m v).0 (λ _. go) (m v).1) unmigrated)
    ∙ ap (find_topic topic) (register-topics up id fs w)
    ∙ publish_self w.db_now topic opts.expirations ttl w.db (expirations-Nodup fs) configured
