-- ===== src/Outbox/Add/Announced.antt =====
-- Where AddMessages announces what it has stored.
use pgoutbox.Prelude.{ℕ, String, ◌≡◌, ◌≢◌, refl, Option, none, some, List, [], ◌∷◌, ◌++◌}
use pgoutbox.Db.Topics.{insert_message, topics_insert_trigger_fn}
use pgoutbox.World.{World, Result, ok}
use pgoutbox.Outbox.{Outbox, PubSubKind, no_pubsub, pubsub, tx_publisher}
use pgoutbox.Outbox.Add.{MessageOpts, Notifier, add_messages, run_hooks, notify}
use pgoutbox.Outbox.Add.Stored.{
  Adds, failed, nothing, added, add_messages-Adds, notified, notified_db, inserted,
}

run_hooks-append :
    {S : Type 0} (hook : String → S → S) (hooks : List String) (topic : String) (s : S)
    → run_hooks hook (hooks ++ topic ∷ []) s ≡ hook topic (run_hooks hook hooks s)
unfolding run_hooks
run_hooks-append hook [] topic s = refl
run_hooks-append hook (t ∷ hooks) topic s = run_hooks-append hook hooks topic (hook t s)

-- What a successful insert adds to the transaction's notifications, and to what Notify publishes.
abbrev pub Announced :
    {S : Type 0}
    → (String → S → S)
    → S
    → String
    → PubSubKind
    → Option Notifier
    → Option Notifier
    → List String
    → List String
    → Type 0
Announced hook s topic tx_publisher n n' sent sent' = (sent' ≡ sent ++ topic ∷ []) × (n' ≡ n)
Announced hook s topic no_pubsub n n' sent sent' = (sent' ≡ sent) × (n' ≡ n)
Announced hook s topic pubsub none n' sent sent' = (sent' ≡ sent) × (n' ≡ none)
Announced hook s topic pubsub (some n) n' sent sent' =
    (sent' ≡ sent)
    × ((after : Notifier) × (n' ≡ some after)
        × (notify hook after s ≡ hook topic (notify hook n s)))

module _ {S : Type 0} (hook : String → S → S) (s : S) (topic : String) where
  Announced-notified :
      (k : PubSubKind) (msgs : List MessageOpts) (n : Option Notifier) (w : World)
      (stored : List (List ℕ))
      → Announced hook s topic k n
          (notified k topic n)
          w.work.notifications
          (notified_db k topic (inserted k topic msgs n w stored)).notifications
  unfolding notify insert_message topics_insert_trigger_fn
  Announced-notified tx_publisher msgs n w stored = (refl, refl)
  Announced-notified no_pubsub msgs n w stored = (refl, refl)
  Announced-notified pubsub msgs none w stored = (refl, refl)
  Announced-notified pubsub msgs (some n) w stored =
      (refl, (_, refl, run_hooks-append hook n.hooks topic s))

-- Each AddMessages that stores something announces its topic exactly once: in the caller's
-- transaction with a TxPublisher, else by one further publish, the last one, of the caller's Notify;
-- without a PubSub or without a notifier nowhere.
pub add_messages_announces :
    {S : Type 0} (hook : String → S → S) (s : S) (o : Outbox) (topic : String)
    (msgs : List MessageOpts) (n n' : Option Notifier) (w : World)
    → msgs ≢ []
    → (add_messages o topic msgs n w).0 ≡ ok n'
    → Announced hook s topic o.pubsub_kind n n' w.work.notifications
        (add_messages o topic msgs n w).1.work.notifications
add_messages_announces hook s o topic msgs n n' w some_given won =
    by_end won (add_messages-Adds o topic msgs n w).at
  where
    by_end :
        {r : Result (Option Notifier)} {w' : World}
        → r ≡ ok n'
        → Adds o.pubsub_kind topic msgs n w r w'
        → Announced hook s topic o.pubsub_kind n n' w.work.notifications w'.work.notifications
    by_end won (failed e bad _) = cc
    by_end won (nothing none_given _ _) = absurd (some_given none_given)
    by_end won (added stored _ fine _ written) =
        let same : n' ≡ notified o.pubsub_kind topic n = cc in
        rw same (rw written (Announced-notified hook s topic o.pubsub_kind msgs n w stored))
