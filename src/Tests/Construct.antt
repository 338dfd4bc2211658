-- ===== src/Tests/Construct.antt =====
-- NewOutbox, run.
use pgoutbox.Prelude.{
  ℕ, ◌*◌, ◌≡◌, ◌↔◌, refl, true, false, none, some, List, [], ◌∷◌, Mem, ◌≤◌, length, pos,
}
use pgoutbox.Db.{second, Topic}
use pgoutbox.Db.Topics.{find_topic}
use pgoutbox.World.{World, M, Error, ok, err, fails, other, invalid_schema_name}
use pgoutbox.Outbox.{tx_publisher}
use pgoutbox.Migrate.{matches_schema_name, codes, is_first, is_later}
use pgoutbox.Migrate.Names.{schema_name_iff}
use pgoutbox.Construct.{
  OutboxOpt, with_auto_migrate, with_topic_expiration, with_pub_sub, new_outbox, build_outbox,
  apply_outbox_opts,
}
use pgoutbox.Construct.Registers.{new_outbox_outcome, new_outbox_registers, migrated, opts}
use pgoutbox.Construct.Expirations.{answering, last_given}
use pgoutbox.Sql.{query_row}
use pgoutbox.Tests.{world, free_db}

abbrev start : World
start = world 100 free_db (fails other ∷ fails other ∷ [])

abbrev goose : M (Unit {0})
goose w = (ok tt, w)

-- The expiration of a topic is given twice.
abbrev fs : List OutboxOpt
fs =
    with_auto_migrate false
    ∷ with_topic_expiration "orders" (pos 5)
    ∷ with_topic_expiration "orders" (pos (60 * second))
    ∷ with_pub_sub tx_publisher
    ∷ []

schema_name_iff_example : (matches_schema_name (codes "outbox_2") ≡ true) ↔ (
    (c : ℕ) × (cs : List ℕ) × (codes "outbox_2" ≡ c ∷ cs)
    × (is_first c ≡ true)
    × (length (codes "outbox_2") ≤ 63)
    × ((d : ℕ) → Mem d (codes "outbox_2") → is_later d ≡ true))
schema_name_iff_example = schema_name_iff (codes "outbox_2")

leading_digit : matches_schema_name (codes "2_outbox") ≡ false
unfolding matches_schema_name
leading_digit = refl

new_outbox_outcome_example :
    (matches_schema_name (codes (opts goose 9 fs start).schema) ≡ false
      → new_outbox goose 9 fs start ≡ (err invalid_schema_name, start))
    × (matches_schema_name (codes (opts goose 9 fs start).schema) ≡ true
        → (migrated goose 9 fs start start).0 ≡ ok tt
        → (new_outbox goose 9 fs start).0 ≡ ok (build_outbox 9 (opts goose 9 fs start)))
    × ((e : Error)
        → matches_schema_name (codes (opts goose 9 fs start).schema) ≡ true
        → (migrated goose 9 fs start start).0 ≡ err e
        → new_outbox goose 9 fs start ≡ (err e, (migrated goose 9 fs start start).1))
new_outbox_outcome_example = new_outbox_outcome goose 9 fs start

accepted : matches_schema_name (codes "outbox") ≡ true
unfolding matches_schema_name
accepted = refl

kept_row : Topic
kept_row = record {
  topic = "orders";
  expiration_nanos = some (pos (60 * second));
  exclusive_consumer_id = none;
  exclusive_consumer_expires_at = none;
  last_inserted_at = some (10 * second);
}

new_outbox_registers_example :
    find_topic "orders" (new_outbox goose 9 fs (answering start)).1.db.topics ≡ some kept_row
unfolding apply_outbox_opts kept_row last_given query_row
new_outbox_registers_example =
    new_outbox_registers goose 9 fs start "orders" (pos (60 * second)) accepted refl refl
