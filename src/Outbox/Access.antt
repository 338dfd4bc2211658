-- ===== src/Outbox/Access.antt =====
-- checkExclusiveAccessForUpdate of outbox.go.
use pgoutbox.Prelude.{
  ℕ, ◌≡◌, String, Bool, false, Option, none, some, ltb, ◌==◌, number_test, if◌then◌else◌,
}
use pgoutbox.Db.Topics.{GetTopicForUpdateRow, get_topic_for_update}
use pgoutbox.World.{
  World, Result, ok, err, Error, database, Cause, M, gets, ◌>>=◌, tx_query, rest,
  exclusive_lease_held, exclusive_lease_required,
}
use pgoutbox.World.Rules.{Gives, tx_query_rule, nest_rule, proceed_rule}
use pgoutbox.Outbox.{Outbox}

-- `ExpiresAt.Valid && ExpiresAt.Time.After(time.Now())`
abbrev pub is_live : ℕ → Option ℕ → Bool
is_live now none = false
is_live now (some t) = ltb now t

abbrev pub check_holder : ℕ → ℕ → ℕ → Option ℕ → Result (Unit {0})
check_holder me now holder expires =
    if holder == me
    then (if is_live now expires then ok tt else err exclusive_lease_required)
    else (if is_live now expires then err exclusive_lease_held else err exclusive_lease_required)

unfoldable pub check_row : ℕ → ℕ → Option GetTopicForUpdateRow → Result (Unit {0})
check_row me now none = ok tt
check_row me now (some row) = elim row.exclusive_consumer_id [
  | none ↦ ok tt
  | some holder ↦ check_holder me now holder row.exclusive_consumer_expires_at
]

unfoldable pub check_exclusive_access_for_update : Outbox → String → M (Unit {0})
unfolding check_row tx_query
check_exclusive_access_for_update o topic = do
  row ← tx_query (get_topic_for_update topic)
  now ← gets (λ w. w.now)
  λ w. (check_row o.instance_id now row, w)

-- The rest of a block runs only after the check has passed.
pub check_exclusive_access_rule :
    {B : Type 0} {Q : Result B → World → Type 0} {w : World} (o : Outbox) (topic : String)
    (k : Unit {0} → M B)
    → let r = check_row o.instance_id w.now (get_topic_for_update topic w.work) in
      ((c : Cause) → Q (err (database c)) (rest w))
      → ((e : Error) → r ≡ err e → Q (err e) (rest w))
      → (r ≡ ok tt → Gives (k tt) (rest w) Q)
      → Gives (check_exclusive_access_for_update o topic >>= k) w Q
unfolding check_exclusive_access_for_update ◌>>=◌
check_exclusive_access_rule {Q = Q} {w} o topic k failed bad good = nest_rule _ k (
    tx_query_rule (get_topic_for_update topic) _ failed
      (record { at = proceed_rule Q _ (rest w) k bad (λ _ pass. good pass) }))
