-- ===== src/Outbox/Add.antt =====
-- AddMessages, Notifier and Notify of outbox.go.
pub mod Stored
pub mod Refused
pub mod Announced
use pgoutbox.Prelude.{
  ℕ, suc, String, Bool, Option, none, some, List, [], ◌∷◌, ◌++◌, map, length, ◌==◌, number_test,
  text_test, if◌then◌else◌,
}
use pgoutbox.Db.{Db}
use pgoutbox.Db.Messages.{InsertMessageParams}
use pgoutbox.Db.Topics.{insert_message}
use pgoutbox.World.{
  Result, ok, err, M, pure, raise, gets, ◌>>=◌, ◌>>◌, tx_exec, empty_topic, empty_payload, database,
  other,
}
use pgoutbox.Outbox.{Outbox, PubSubKind, no_pubsub, pubsub, tx_publisher}

pub record MessageOpts : Type 0 where
  pub payload : List ℕ

-- Each hook publishes to one topic.
pub record Notifier : Type 0 where
  pub hooks : List String

-- Notify: `hook` is a call of PubSub.Pub that logs its failure; the hooks run in order.
run_hooks : {S : Type 0} → (String → S → S) → List String → S → S
run_hooks hook [] s = s
run_hooks hook (topic ∷ topics) s = run_hooks hook topics (hook topic s)

unfoldable pub notify : {S : Type 0} → (String → S → S) → Notifier → S → S
unfolding run_hooks
notify hook n = run_hooks hook n.hooks

-- The loop that builds the rows: `i` is the index of the first message of the list.
unfoldable pub build_params : String → ℕ → List MessageOpts → Result (List InsertMessageParams)
build_params topic i [] = ok []
build_params topic i (m ∷ ms) =
    let later = build_params topic (suc i) ms in
    if length m.payload == 0 then err (empty_payload i) else (elim later [
      | ok params ↦ ok (record { topic = topic; payload = m.payload } ∷ params)
      | err e ↦ err e
    ])

-- PubInTx of a TxPublisher: a notification of the caller's transaction.
abbrev pub pub_in_tx : String → Db → Db
pub_in_tx topic db = record db { notifications = db.notifications ++ topic ∷ [] }

-- The notification of an insert; the result is the notifier that the caller passed in.
unfoldable pub announce : PubSubKind → String → Option Notifier → M (Option Notifier)
announce tx_publisher topic n = do tx_exec (pub_in_tx topic); pure n
announce pubsub topic (some n) = pure (some (record { hooks = n.hooks ++ topic ∷ [] }))
announce pubsub topic none = pure none
announce no_pubsub topic n = pure n

copied_row :
    String → Option (List ℕ) → Option (List InsertMessageParams) → Option (List InsertMessageParams)
copied_row topic (some payload) (some rows) =
    some (record { topic = topic; payload = payload } ∷ rows)
copied_row topic none rows = none
copied_row topic (some payload) none = none

-- What COPY gives the JSONB column: each payload as Postgres stores it, or no rows at all if one of
-- them is not JSON.
unfoldable pub copied_rows :
    (List ℕ → Option (List ℕ)) → List InsertMessageParams → Option (List InsertMessageParams)
unfolding copied_row
copied_rows to_jsonb [] = some []
copied_rows to_jsonb (p ∷ ps) = copied_row p.topic (to_jsonb p.payload) (copied_rows to_jsonb ps)

-- The COPY statement, with what Postgres makes of its rows, and the notification.
unfoldable pub copy_and_announce :
    Outbox
    → String
    → Option Notifier
    → (String → Bool)
    → ℕ
    → Option (List InsertMessageParams)
    → M (Option Notifier)
unfolding announce tx_exec
copy_and_announce o topic n locked now none = do tx_exec (λ db. db); raise (database other)
copy_and_announce o topic n locked now (some rows) = do
  tx_exec (insert_message locked now rows)
  announce o.pubsub_kind topic n

unfoldable pub insert_and_announce :
    Outbox → String → Option Notifier → Result (List InsertMessageParams) → M (Option Notifier)
unfolding copy_and_announce copied_rows
insert_and_announce o topic n (err e) = raise e
insert_and_announce o topic n (ok params) = do
  locked ← gets (λ w. w.locked_topics)
  now ← gets (λ w. w.db_now)
  to_jsonb ← gets (λ w. w.to_jsonb)
  copy_and_announce o topic n locked now (copied_rows to_jsonb params)

-- AddMessages, in the caller's open transaction.
unfoldable pub add_messages :
    Outbox → String → List MessageOpts → Option Notifier → M (Option Notifier)
unfolding insert_and_announce build_params
add_messages o topic msgs n =
    if topic == ""
    then raise empty_topic
    else if length msgs == 0
    then pure n
    else insert_and_announce o topic n (build_params topic 0 msgs)
