-- ===== src/Tests/Add.antt =====
-- AddMessages and the constraints, run.
use mathlib.Core.List.{Nodup-nil, Nodup-cons, mem-cons, not-mem-nil}
use mathlib.Core.Logic.Or
use mathlib.Core.HLevel.{⊥_prop}
use native.Mathlib.Bridge.{le_prop}
use mathlib.Core.List.{Mem-prop}
use pgoutbox.Prelude.{
  ℕ, ◌*◌, ◌≡◌, ◌≢◌, refl, String, Option, List, [], ◌∷◌, ◌++◌, arith, some, none, ne_of_false,
  text_test, number_test,
}
use pgoutbox.Db.IsWellFormed.{IsWellFormed}
use pgoutbox.World.{World, ok, err, ◌>>=◌, database, other}
use pgoutbox.Outbox.{Outbox, pubsub}
use pgoutbox.Outbox.Add.{MessageOpts, Notifier, add_messages}
use pgoutbox.Outbox.Add.Stored.{StoredAs, add_messages_stores, payloads_of}
use pgoutbox.Outbox.Add.Announced.{Announced, add_messages_announces}
use pgoutbox.Outbox.Process.{process_messages}
use pgoutbox.Outbox.Maintenance.{run_maintenance}
use pgoutbox.Outbox.Lease.{upsert_own_session}
use pgoutbox.Outbox.Scan.{ScanSettings, scan_topics}
use pgoutbox.Tests.Collation.{by_code}
use pgoutbox.Db.{second}
use pgoutbox.Outbox.Runs.{Runs, processes, adds, cleans, scans, beats, runs-IsWellFormed}
use pgoutbox.Db.Topics.{insert_message}
use pgoutbox.Tests.{as_jsonb, world, free_db, instance_of}

abbrev me : Outbox
me = instance_of 7 pubsub

abbrev start : World
start = world 100 free_db []

abbrev of_payload : List ℕ → MessageOpts
of_payload p = record { payload = p }

abbrev two : List MessageOpts
two = of_payload (b' ' ∷ b'7' ∷ []) ∷ of_payload (b'8' ∷ []) ∷ []

abbrev notifier : Notifier
notifier = record { hooks = "mails" ∷ [] }

abbrev both_hooks : Option Notifier
both_hooks = some (record { hooks = "mails" ∷ "orders" ∷ [] })

added : (add_messages me "orders" two (some notifier) start).0 ≡ ok both_hooks
unfolding add_messages ◌>>=◌
added = refl

abbrev later : World
later = (add_messages me "orders" two (some notifier) start).1

add_messages_stores_example :
    (later.db ≡ free_db)
    × ((stored : List (List ℕ)) × StoredAs as_jsonb two stored
        × (payloads_of "orders" later.work.messages
            ≡ payloads_of "orders" free_db.messages ++ stored))
    × ((other : String)
        → other ≢ "orders"
        → payloads_of other later.work.messages ≡ payloads_of other free_db.messages)
add_messages_stores_example =
    add_messages_stores me "orders" two (some notifier) start both_hooks added

-- The space in front is not stored, and a payload that is not JSON fails the call.
stored_payloads :
    payloads_of "orders" later.work.messages
    ≡ payloads_of "orders" free_db.messages ++ (b'7' ∷ []) ∷ (b'8' ∷ []) ∷ []
unfolding add_messages ◌>>=◌ insert_message
stored_payloads = refl

not_json :
    (add_messages me "orders" (of_payload (b'x' ∷ []) ∷ []) none start).0 ≡ err (database other)
unfolding add_messages ◌>>=◌
not_json = refl

two_given : two ≢ []
two_given e = cc

abbrev publish : String → List String → List String
publish topic sent = sent ++ topic ∷ []

add_messages_announces_example :
    Announced publish [] "orders" pubsub (some notifier) both_hooks [] later.work.notifications
add_messages_announces_example =
    add_messages_announces publish [] me "orders" two (some notifier) both_hooks start two_given
      added

pub well_formed : IsWellFormed free_db
well_formed = record {
  message_ids = Nodup-cons.1 (
    (λ m.
        Or.elim ⊥_prop (mem-cons.0 m) (λ e. omega arith)
          (λ k. Or.elim ⊥_prop (mem-cons.0 k) (λ e. omega arith) not-mem-nil)),
    Nodup-cons.1 (
      (λ m. Or.elim ⊥_prop (mem-cons.0 m) (λ e. omega arith) not-mem-nil),
      Nodup-cons.1 (not-mem-nil, Nodup-nil),
    ),
  );
  ids_below = λ m h.
      Or.elim le_prop (mem-cons.0 h) (λ e. rw e (omega arith))
        (λ k.
          Or.elim le_prop (mem-cons.0 k) (λ e. rw e (omega arith))
            (λ j.
              Or.elim le_prop (mem-cons.0 j) (λ e. rw e (omega arith))
                (λ n. absurd (not-mem-nil n))));
  topic_keys = Nodup-cons.1 (
    (λ m. Or.elim ⊥_prop (mem-cons.0 m) (ne_of_false "orders" "mails" refl) not-mem-nil),
    Nodup-cons.1 (not-mem-nil, Nodup-nil),
  );
  session_keys = Nodup-cons.1 (
    (λ m. Or.elim ⊥_prop (mem-cons.0 m) (λ e. omega arith) not-mem-nil),
    Nodup-cons.1 (not-mem-nil, Nodup-nil),
  );
  lease_keys = Nodup-nil;
  registered = λ m h.
      Or.elim Mem-prop (mem-cons.0 h) (λ e. rw e (mem-cons.1 (Or.inl refl)))
        (λ k.
          Or.elim Mem-prop (mem-cons.0 k) (λ e. rw e (mem-cons.1 (Or.inl refl)))
            (λ j.
              Or.elim Mem-prop (mem-cons.0 j)
                (λ e. rw e (mem-cons.1 (Or.inr (mem-cons.1 (Or.inl refl)))))
                (λ n. absurd (not-mem-nil n))));
}

abbrev processed : World
processed = (process_messages me [] "orders" (record later { db = later.work })).1

abbrev settings : ScanSettings
settings = record {
  catchup_interval = 3600 * second;
  session_retention = 3600 * second;
  activity_slack = 120 * second;
}

abbrev scanned : World
scanned = (scan_topics (λ ts. ts) by_code me settings none [] (upsert_own_session me processed).1).1

-- The application adds two messages; an instance processes them, beats, scans and cleans up.
runs-IsWellFormed_example : IsWellFormed (run_maintenance me "orders" 5 scanned).1.db
runs-IsWellFormed_example = runs-IsWellFormed start _ well_formed (
    cleans _ me "orders" 5 (
      scans _ (λ ts. ts) by_code me settings none []
        (beats _ me (
          processes _ me [] "orders"
            (adds start me "orders" two (some notifier) both_hooks Runs.start added)))))
