-- ===== src/Construct/Constraints.antt =====
-- NewOutbox without migrations keeps the constraints of the schema.
use pgoutbox.Prelude.{String, ℤ, ◌≡◌, false, List, [], ◌∷◌, ℕ}
use pgoutbox.Db.IsWellFormed.{IsWellFormed, insert_topic_if_absent-IsWellFormed}
use pgoutbox.World.{World, M}
use pgoutbox.World.Rules.{gets_rule, pure_rule, raise_rule, if_rule, logged_rule}
use pgoutbox.World.Keeps.{bind_rule, executing_rule}
use pgoutbox.Outbox.Scan.Constraints.{Keeps, heartbeat-Keeps}
use pgoutbox.Migrate.{validate_schema_name, matches_schema_name, codes}
use pgoutbox.Construct.{
  OutboxOpt, apply_outbox_opts, default_opts, new_outbox, build_outbox, ensure_topic_rows,
  ensure_topic_row,
}

ensure_topic_row-Keeps :
    (topic : String) (ttl : ℤ) (w : World)
    → IsWellFormed w.db
    → Keeps (ensure_topic_row topic ttl) w
unfolding ensure_topic_row
ensure_topic_row-Keeps topic ttl w v =
    gets_rule _ _ (executing_rule _ v (insert_topic_if_absent-IsWellFormed v w.db_now topic _))

ensure_topic_rows-Keeps :
    (es : List (String × ℤ)) (w : World) → IsWellFormed w.db → Keeps (ensure_topic_rows es) w
unfolding ensure_topic_rows
ensure_topic_rows-Keeps [] w v = pure_rule tt v
ensure_topic_rows-Keeps ((topic, ttl) ∷ es) w v =
    bind_rule _ _ (logged_rule _ (ensure_topic_row-Keeps topic ttl w v))
      (λ _ u vu. ensure_topic_rows-Keeps es u vu)

validate-Keeps :
    (schema : String) (w : World) → IsWellFormed w.db → Keeps (validate_schema_name schema) w
unfolding validate_schema_name
validate-Keeps schema w v =
    if_rule (matches_schema_name (codes schema)) (λ _. pure_rule tt v) (λ _. raise_rule _ v)

pub new_outbox-Keeps :
    (up : M (Unit {0})) (id : ℕ) (fs : List OutboxOpt) (w : World)
    → (apply_outbox_opts default_opts fs).auto_migrate ≡ false
    → IsWellFormed w.db
    → Keeps (new_outbox up id fs) w
unfolding new_outbox
new_outbox-Keeps up id fs w manual v =
    let opts = apply_outbox_opts default_opts fs in
    bind_rule _ _ (validate-Keeps opts.schema w v) (λ _ u vu.
      bind_rule _ _ (rw manual (pure_rule tt vu)) (λ _ x vx.
        bind_rule _ _ (ensure_topic_rows-Keeps opts.expirations x vx) (λ _ y vy.
          bind_rule _ _ (logged_rule _ (heartbeat-Keeps (build_outbox id opts) y vy))
            (λ _ z vz. pure_rule _ vz))))
