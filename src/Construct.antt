-- ===== src/Construct.antt =====
-- outbox.go: the options of NewOutbox and Migrate, and NewOutbox itself up to the goroutines that it starts.
pub mod Registers
pub mod Constraints
pub mod Expirations
use pgoutbox.Prelude.{
  ℕ, zero, suc, String, Bool, true, false, Option, none, some, List, [], ◌∷◌, ◌==◌, text_test,
  if◌then◌else◌, ℤ, pos, negsuc,
}
use pgoutbox.Db.Topics.{insert_topic_if_absent}
use pgoutbox.World.{World, M, pure, raise, gets, ◌>>=◌, ◌>>◌, logged, pool_exec}
use pgoutbox.Outbox.{Outbox, PubSubKind, no_pubsub}
use pgoutbox.Outbox.Lease.{upsert_own_session}
use pgoutbox.Migrate.{validate_schema_name, run_migrations}

pub record OutboxImplOpts : Type 0 where
  pub schema : String
  pub auto_migrate : Bool
  pub expirations : List (String × ℤ)
  pub default_expiration : ℤ
  pub pubsub_kind : PubSubKind

abbrev pub default_opts : OutboxImplOpts
default_opts = record {
  schema = "outbox";
  auto_migrate = true;
  expirations = [];
  default_expiration = pos 0;
  pubsub_kind = no_pubsub;
}

-- WithSchema, WithAutoMigrate, WithTopicExpiration, WithDefaultExpiration, WithLogger and WithPubSub.
pub data OutboxOpt : Type 0 where
  with_schema : String → OutboxOpt
  with_auto_migrate : Bool → OutboxOpt
  with_topic_expiration : String → ℤ → OutboxOpt
  with_default_expiration : ℤ → OutboxOpt
  with_logger : OutboxOpt
  with_pub_sub : PubSubKind → OutboxOpt

-- `expirations[topic] = ttl`
unfoldable pub set_expiration : String → ℤ → List (String × ℤ) → List (String × ℤ)
set_expiration topic ttl [] = (topic, ttl) ∷ []
set_expiration topic ttl ((t, x) ∷ es) =
    let rest = set_expiration topic ttl es in
    if t == topic then (topic, ttl) ∷ es else (t, x) ∷ rest

unfoldable pub apply_outbox_opt : OutboxImplOpts → OutboxOpt → OutboxImplOpts
unfolding set_expiration
apply_outbox_opt opts (with_schema schema) = record opts { schema = schema }
apply_outbox_opt opts (with_auto_migrate enabled) = record opts { auto_migrate = enabled }
apply_outbox_opt opts (with_topic_expiration topic ttl) = record opts {
  expirations = set_expiration topic ttl opts.expirations;
}
apply_outbox_opt opts (with_default_expiration ttl) = record opts { default_expiration = ttl }
apply_outbox_opt opts with_logger = opts
apply_outbox_opt opts (with_pub_sub kind) = record opts { pubsub_kind = kind }

unfoldable pub apply_outbox_opts : OutboxImplOpts → List OutboxOpt → OutboxImplOpts
unfolding apply_outbox_opt
apply_outbox_opts opts [] = opts
apply_outbox_opts opts (f ∷ fs) = apply_outbox_opts (apply_outbox_opt opts f) fs

-- Migrate
unfoldable pub migrate : M (Unit {0}) → List OutboxOpt → M (Unit {0})
unfolding apply_outbox_opts run_migrations
migrate up fs = let opts = apply_outbox_opts default_opts fs in run_migrations up opts.schema

-- `if ttl > 0`
abbrev pub positive_ttl : ℤ → Option ℤ
positive_ttl (pos zero) = none
positive_ttl (pos (suc n)) = some (pos (suc n))
positive_ttl (negsuc n) = none

-- ensureTopicRow
unfoldable pub ensure_topic_row : String → ℤ → M (Unit {0})
unfolding pool_exec
ensure_topic_row topic ttl = do
  now ← gets (λ w. w.db_now)
  pool_exec (insert_topic_if_absent now topic (positive_ttl ttl))

-- The loop over the expirations: an error is logged, and the next topic tried.
unfoldable pub ensure_topic_rows : List (String × ℤ) → M (Unit {0})
unfolding ensure_topic_row
ensure_topic_rows [] = pure tt
ensure_topic_rows ((topic, ttl) ∷ es) = do logged (ensure_topic_row topic ttl); ensure_topic_rows es

abbrev pub build_outbox : ℕ → OutboxImplOpts → Outbox
build_outbox id opts = record {
  instance_id = id;
  default_expiration = opts.default_expiration;
  pubsub_kind = opts.pubsub_kind;
  flushers = [];
}

-- NewOutbox: `id` is the fresh uuid, and `up` what goose does.
unfoldable pub new_outbox : M (Unit {0}) → ℕ → List OutboxOpt → M Outbox
unfolding apply_outbox_opts validate_schema_name run_migrations ensure_topic_rows upsert_own_session
new_outbox up id fs =
    let opts = apply_outbox_opts default_opts fs in
    do
      validate_schema_name opts.schema
      if opts.auto_migrate then run_migrations up opts.schema else pure tt
      ensure_topic_rows opts.expirations
      logged (upsert_own_session (build_outbox id opts))
      pure (build_outbox id opts)
