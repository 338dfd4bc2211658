-- ===== src/Outbox/Add/Stored.antt =====
-- What AddMessages stores.
use mathlib.Core.List.{append-nil}
use pgoutbox.Prelude.{
  ℕ, suc, String, ◌≡◌, ◌≢◌, refl, sym, ◌∙◌, ap, Option, none, some, List, [], ◌∷◌, ◌++◌, map, arith,
  length, empty_of_length, ◌==◌, ==_refl, ==-false, text_test, number_test,
}
use pgoutbox.Sql.{select}
use pgoutbox.Db.{Db, Message}
use pgoutbox.Db.Messages.{InsertMessageParams, number_rows}
use pgoutbox.Db.Topics.{insert_message}
use pgoutbox.World.{World, Result, ok, err, Error, rest}
use pgoutbox.World.Rules.{Gives, tx_exec_rule, gets_rule, pure_rule, raise_rule, if_rule}
use pgoutbox.Outbox.{Outbox, PubSubKind, no_pubsub, pubsub, tx_publisher}
use pgoutbox.Outbox.Add.{
  MessageOpts, Notifier, build_params, add_messages, insert_and_announce, announce, pub_in_tx,
  copied_row, copied_rows, copy_and_announce,
}

-- The payloads stored for a topic, in the order of their insertion.
abbrev pub payloads_of : String → List Message → List (List ℕ)
payloads_of topic ms = map (λ (m : Message). m.payload) (select (λ m. m.topic == topic) ms)

payloads_of-append :
    (topic : String) (xs ys : List Message)
    → payloads_of topic (xs ++ ys) ≡ payloads_of topic xs ++ payloads_of topic ys
payloads_of-append topic [] ys = refl
payloads_of-append topic (x ∷ xs) ys = ground (arith, payloads_of-append topic xs ys)

abbrev pub payloads : List MessageOpts → List (List ℕ)
payloads = map (λ (m : MessageOpts). m.payload)

-- Rows of one topic, given by their payloads.
abbrev pub params_of : String → List (List ℕ) → List InsertMessageParams
params_of topic = map (λ p. record { topic = topic; payload = p })

-- What Postgres stores of the payloads of the messages.
abbrev pub StoredAs : (List ℕ → Option (List ℕ)) → List MessageOpts → List (List ℕ) → Type 0
StoredAs to_jsonb msgs stored = map to_jsonb (payloads msgs) ≡ map (λ p. some p) stored

data Copied (f : List ℕ → Option (List ℕ)) (topic : String) (ps : List (List ℕ))
    : Option (List InsertMessageParams) → Type 0 where
  refused : Copied f topic ps none
  copied :
      (stored : List (List ℕ))
      → map f ps ≡ map (λ p. some p) stored
      → Copied f topic ps (some (params_of topic stored))

copied_row-Copied :
    (f : List ℕ → Option (List ℕ)) (topic : String) (p : List ℕ) (ps : List (List ℕ))
    (q : Option (List ℕ)) {rows : Option (List InsertMessageParams)}
    → f p ≡ q
    → Copied f topic ps rows
    → Copied f topic (p ∷ ps) (copied_row topic q rows)
unfolding copied_row
copied_row-Copied f topic p ps none e c = refused
copied_row-Copied f topic p ps (some q) e refused = refused
copied_row-Copied f topic p ps (some q) e (copied stored same) =
    copied (q ∷ stored) (rw (e, same) refl)

copied_rows-Copied :
    (f : List ℕ → Option (List ℕ)) (topic : String) (ps : List (List ℕ))
    → Copied f topic ps (copied_rows f (params_of topic ps))
unfolding copied_rows
copied_rows-Copied f topic [] = copied [] refl
copied_rows-Copied f topic (p ∷ ps) =
    copied_row-Copied f topic p ps (f p) refl (copied_rows-Copied f topic ps)

build_params-ok :
    (topic : String) (i : ℕ) (msgs : List MessageOpts) {params : List InsertMessageParams}
    → build_params topic i msgs ≡ ok params
    → params ≡ params_of topic (payloads msgs)
unfolding build_params
build_params-ok topic i [] e = ground arith
build_params-ok topic i (m ∷ ms) {params} e =
    by_later (build_params topic (suc i) ms) refl (λ ps l. build_params-ok topic (suc i) ms l)
  where
    by_later :
        (later : Result (List InsertMessageParams))
        → build_params topic (suc i) ms ≡ later
        → ((ps : List InsertMessageParams) → later ≡ ok ps → ps ≡ params_of topic (payloads ms))
        → params ≡ params_of topic (payloads (m ∷ ms))
    by_later (ok ps) l ih = ground (arith, l, ih ps refl)
    by_later (err x) l ih = ground (arith, l)

module _ (topic : String) (now : ℕ) where
  -- The rows of a copy, seen by the topic that they are for.
  payloads-number_rows_self :
      (id : ℕ) (ps : List (List ℕ))
      → map
          (λ (m : Message). m.payload)
          (select (λ m. m.topic == topic) (number_rows id now (params_of topic ps)))
        ≡ ps
  unfolding number_rows
  payloads-number_rows_self id [] = refl
  payloads-number_rows_self id (p ∷ ps) =
      rw (==_refl topic) (ap (◌∷◌ p) (payloads-number_rows_self (suc id) ps))

  payloads-number_rows_other :
      (other : String) (id : ℕ) (ps : List (List ℕ))
      → other ≢ topic
      → select (λ (m : Message). m.topic == other) (number_rows id now (params_of topic ps)) ≡ []
  unfolding number_rows
  payloads-number_rows_other other id [] h = refl
  payloads-number_rows_other other id (p ∷ ps) h =
      rw (==-false topic other (λ e. h (sym e))) (payloads-number_rows_other other (suc id) ps h)

-- Where the notification of a successful insert goes: into the transaction, or into the notifier.
abbrev pub notified_db : PubSubKind → String → Db → Db
notified_db tx_publisher topic db = pub_in_tx topic db
notified_db _ topic db = db

abbrev pub notified : PubSubKind → String → Option Notifier → Option Notifier
notified pubsub topic (some n) = some (record { hooks = n.hooks ++ topic ∷ [] })
notified _ topic n = n

module _ (k : PubSubKind) (topic : String) (msgs : List MessageOpts) (n : Option Notifier)
    (w : World) where
  abbrev pub inserted : List (List ℕ) → Db
  inserted stored = insert_message w.locked_topics w.db_now (params_of topic stored) w.work

  -- How AddMessages can end: with an error, with nothing to do, or with the rows inserted and
  -- announced in the caller's transaction.
  pub data Adds (r : Result (Option Notifier)) (w' : World) : Type 0 where
    failed : (e : Error) → r ≡ err e → w'.db ≡ w.db → Adds r w'
    nothing : msgs ≡ [] → r ≡ ok n → w' ≡ w → Adds r w'
    added :
        (stored : List (List ℕ))
        → StoredAs w.to_jsonb msgs stored
        → r ≡ ok (notified k topic n)
        → w'.db ≡ w.db
        → w'.work ≡ notified_db k topic (inserted stored)
        → Adds r w'

announce-Adds :
    (k : PubSubKind) (topic : String) (msgs : List MessageOpts) (n : Option Notifier) (w : World)
    (stored : List (List ℕ))
    → StoredAs w.to_jsonb msgs stored
    → Gives
        (announce k topic n)
        (record (rest w) { work = inserted k topic msgs n w stored })
        (Adds k topic msgs n w)
unfolding announce
announce-Adds no_pubsub topic msgs n w stored done = pure_rule n (added stored done refl refl refl)
announce-Adds pubsub topic msgs (some n) w stored done =
    pure_rule _ (added stored done refl refl refl)
announce-Adds pubsub topic msgs none w stored done =
    pure_rule none (added stored done refl refl refl)
announce-Adds tx_publisher topic msgs n w stored done =
    tx_exec_rule _ _ (λ c. failed _ refl refl) (pure_rule n (added stored done refl refl refl))

messages-notified_db :
    (k : PubSubKind) (topic : String) (db : Db) → (notified_db k topic db).messages ≡ db.messages
messages-notified_db tx_publisher topic db = refl
messages-notified_db _ topic db = refl

pub messages-added :
    (k : PubSubKind) (topic : String) (msgs : List MessageOpts) (n : Option Notifier) (w : World)
    (stored : List (List ℕ))
    → (notified_db k topic (inserted k topic msgs n w stored)).messages
      ≡ w.work.messages ++ number_rows w.work.next_id w.db_now (params_of topic stored)
unfolding insert_message
messages-added k topic msgs n w stored = messages-notified_db k topic _

module _ (o : Outbox) (topic : String) (msgs : List MessageOpts) (n : Option Notifier)
    (w : World) where
  copy_and_announce-Adds :
      {rows : Option (List InsertMessageParams)}
      → Copied w.to_jsonb topic (payloads msgs) rows
      → Gives
          (copy_and_announce o topic n w.locked_topics w.db_now rows)
          w
          (Adds o.pubsub_kind topic msgs n w)
  unfolding copy_and_announce
  copy_and_announce-Adds refused =
      tx_exec_rule _ _ (λ c. failed _ refl refl) (raise_rule _ (failed _ refl refl))
  copy_and_announce-Adds (copied stored done) =
      tx_exec_rule _ _ (λ c. failed _ refl refl)
        (announce-Adds o.pubsub_kind topic msgs n w stored done)

  insert_and_announce-Adds :
      (ps : Result (List InsertMessageParams))
      → build_params topic 0 msgs ≡ ps
      → Gives (insert_and_announce o topic n ps) w (Adds o.pubsub_kind topic msgs n w)
  unfolding insert_and_announce
  insert_and_announce-Adds (err e) h = raise_rule e (failed e refl refl)
  insert_and_announce-Adds (ok ps) h = rw (build_params-ok topic 0 msgs h) (
      gets_rule _ _ (
        gets_rule _ _ (
          gets_rule _ _
            (copy_and_announce-Adds (copied_rows-Copied w.to_jsonb topic (payloads msgs))))))

  pub add_messages-Adds : Gives (add_messages o topic msgs n) w (Adds o.pubsub_kind topic msgs n w)
  unfolding add_messages
  add_messages-Adds =
      if_rule (topic == "") (λ _. raise_rule _ (failed _ refl refl))
        (λ _.
          if_rule (length msgs == 0) (λ e. pure_rule n (nothing (empty_of_length msgs e) refl refl))
            (λ _. insert_and_announce-Adds _ refl))

  -- The rows of the caller's transaction after an insert.
  pub add_messages-work :
      (n' : Option Notifier)
      → msgs ≢ []
      → (add_messages o topic msgs n w).0 ≡ ok n'
      → (stored : List (List ℕ)) × StoredAs w.to_jsonb msgs stored
        × ((add_messages o topic msgs n w).1.work.messages
            ≡ w.work.messages ++ number_rows w.work.next_id w.db_now (params_of topic stored))
  add_messages-work n' some_given won = by_end won add_messages-Adds.at
    where
      by_end :
          {r : Result (Option Notifier)} {w' : World}
          → r ≡ ok n'
          → Adds o.pubsub_kind topic msgs n w r w'
          → (stored : List (List ℕ)) × StoredAs w.to_jsonb msgs stored
            × (w'.work.messages
                ≡ w.work.messages ++ number_rows w.work.next_id w.db_now (params_of topic stored))
      by_end won (failed e lost _) = cc
      by_end won (nothing none_given _ _) = absurd (some_given none_given)
      by_end won (added stored done _ _ s) = (
        stored,
        done,
        ap (λ (x : Db). x.messages) s ∙ messages-added o.pubsub_kind topic msgs n w stored,
      )

  pub add_messages_stores :
      (n' : Option Notifier)
      → (add_messages o topic msgs n w).0 ≡ ok n'
      → let w' = (add_messages o topic msgs n w).1 in
        (w'.db ≡ w.db)
        × ((stored : List (List ℕ)) × StoredAs w.to_jsonb msgs stored
            × (payloads_of topic w'.work.messages ≡ payloads_of topic w.work.messages ++ stored))
        × ((other : String)
            → other ≢ topic
            → payloads_of other w'.work.messages ≡ payloads_of other w.work.messages)
  add_messages_stores n' won = by_end won add_messages-Adds.at
    where
      by_end :
          {r : Result (Option Notifier)} {w' : World}
          → r ≡ ok n'
          → Adds o.pubsub_kind topic msgs n w r w'
          → (w'.db ≡ w.db)
            × ((stored : List (List ℕ)) × StoredAs w.to_jsonb msgs stored
                × (payloads_of topic w'.work.messages
                    ≡ payloads_of topic w.work.messages ++ stored))
            × ((other : String)
                → other ≢ topic
                → payloads_of other w'.work.messages ≡ payloads_of other w.work.messages)
      by_end won (failed e lost _) = cc
      by_end won (nothing none_given _ same) =
          rw (same, none_given) (refl, ([], refl, sym (append-nil _)), λ other h. refl)
      by_end won (added stored done _ d s) =
          let e =
            ap (λ (x : Db). x.messages) s ∙ messages-added o.pubsub_kind topic msgs n w stored in
          (
            d,
            (
              stored,
              done,
              ap (payloads_of topic) e
                  ∙ payloads_of-append topic w.work.messages _
                  ∙ ap (◌++◌ (payloads_of topic w.work.messages))
                      (payloads-number_rows_self topic w.db_now w.work.next_id stored),
            ),
            λ other h.
                ap (payloads_of other) e
                ∙ payloads_of-append other w.work.messages _
                ∙ ap
                    (λ ms. payloads_of other w.work.messages ++ map (λ (m : Message). m.payload) ms)
                    (payloads-number_rows_other topic w.db_now other w.work.next_id stored h)
                ∙ append-nil _,
          )
