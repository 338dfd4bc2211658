-- ===== src/Outbox/Runs.antt =====
-- Calls that come one after the other, of any instances, and what they keep of the database.
use pgoutbox.Prelude.{ℕ, String, Bool, false, Option, List, ◌≡◌}
use pgoutbox.Db.IsWellFormed.{IsWellFormed}
use pgoutbox.World.{World, Env, Answer, M, ok}
use pgoutbox.Outbox.{Outbox}
use pgoutbox.Outbox.Process.{ProcessOpt, process_messages}
use pgoutbox.Outbox.Add.{MessageOpts, Notifier, add_messages}
use pgoutbox.Outbox.Lease.{
  try_acquire_topic_lease, release_topic, upsert_own_session, expire_exclusive_lease_after_grace,
}
use pgoutbox.Outbox.Loops.{ManagedTopic}
use pgoutbox.Outbox.Scan.{ScanSettings, scan_topics}
use pgoutbox.Outbox.Scan.Constraints.{scan_topics-Keeps, heartbeat-Keeps, grace-Keeps}
use pgoutbox.Construct.{OutboxOpt, apply_outbox_opts, default_opts, new_outbox}
use pgoutbox.Construct.Constraints.{new_outbox-Keeps}
use pgoutbox.Outbox.Maintenance.{run_maintenance, finish_dormant_topic}
use pgoutbox.Outbox.Invariant.{
  process_messages-IsWellFormed, add_messages-IsWellFormed, leases-IsWellFormed,
}
use pgoutbox.Outbox.Maintenance.Constraints.{maintenance-IsWellFormed}

-- The worlds that calls lead to: each write of the code is one of these. Time goes on between them, and
-- the database's answers are any.
pub data Runs (w : World) : World → Type 0 where
  start : Runs w w
  later :
      (v : World) (env : Env) (answers : List Answer)
      → Runs w v
      → Runs w (record v { env = env; answers = answers })
  processes :
      (v : World) (o : Outbox) (opts : List ProcessOpt) (topic : String)
      → Runs w v
      → Runs w (process_messages o opts topic v).1
  -- A transaction of the application that adds messages and commits.
  adds :
      (v : World) (o : Outbox) (topic : String) (msgs : List MessageOpts) (n n' : Option Notifier)
      → Runs w v
      → (add_messages o topic msgs n (record v { work = v.db })).0 ≡ ok n'
      → Runs w (record (add_messages o topic msgs n (record v { work = v.db })).1 {
        db = (add_messages o topic msgs n (record v { work = v.db })).1.work;
      })
  attempts :
      (v : World) (o : Outbox) (topic : String)
      → Runs w v
      → Runs w (try_acquire_topic_lease o topic v).1
  releases :
      (v : World) (o : Outbox) (topic : String) → Runs w v → Runs w (release_topic o topic v).1
  cleans :
      (v : World) (o : Outbox) (topic : String) (ttl : ℕ)
      → Runs w v
      → Runs w (run_maintenance o topic ttl v).1
  exits :
      (v : World) (o : Outbox) (topic : String) (ttl : ℕ)
      → Runs w v
      → Runs w (finish_dormant_topic o topic ttl v).1
  beats : (v : World) (o : Outbox) → Runs w v → Runs w (upsert_own_session o v).1
  -- What a watcher writes at its end, and an attempt that gives up a lease.
  lapses :
      (v : World) (o : Outbox) (topic : String)
      → Runs w v
      → Runs w (expire_exclusive_lease_after_grace o topic v).1
  scans :
      (v : World) (shuffle : List String → List String) (less : String → String → Bool) (o : Outbox)
      (settings : ScanSettings) (last : Option ℕ) (managed : List ManagedTopic)
      → Runs w v
      → Runs w (scan_topics shuffle less o settings last managed v).1
  -- NewOutbox on a schema that is there.
  opens :
      (v : World) (up : M (Unit {0})) (id : ℕ) (fs : List OutboxOpt)
      → (apply_outbox_opts default_opts fs).auto_migrate ≡ false
      → Runs w v
      → Runs w (new_outbox up id fs v).1

-- Whatever calls of any instances come after each other, with whatever flushers, options and answers of
-- the database, the constraints of the schema are kept: the keys, the ids below the sequence and a
-- topic row for each stored message. The calls are NewOutbox without migrations, transactions that add
-- messages, ProcessMessages, attempts on a lease, releases, heartbeats, grace-period writes, scans,
-- cleanups and dormant exits, each of them whole.
pub runs-IsWellFormed : (w v : World) → IsWellFormed w.db → Runs w v → IsWellFormed v.db
runs-IsWellFormed w _ h start = h
runs-IsWellFormed w _ h (later v env answers run) = runs-IsWellFormed w v h run
runs-IsWellFormed w _ h (processes v o opts topic run) =
    process_messages-IsWellFormed o opts topic v (runs-IsWellFormed w v h run)
runs-IsWellFormed w _ h (adds v o topic msgs n n' run fine) =
    add_messages-IsWellFormed o topic msgs n n' (record v { work = v.db })
      (runs-IsWellFormed w v h run) fine
runs-IsWellFormed w _ h (attempts v o topic run) =
    (leases-IsWellFormed o topic v (runs-IsWellFormed w v h run)).0
runs-IsWellFormed w _ h (releases v o topic run) =
    (leases-IsWellFormed o topic v (runs-IsWellFormed w v h run)).1
runs-IsWellFormed w _ h (cleans v o topic ttl run) =
    (maintenance-IsWellFormed o topic ttl v (runs-IsWellFormed w v h run)).0
runs-IsWellFormed w _ h (exits v o topic ttl run) =
    (maintenance-IsWellFormed o topic ttl v (runs-IsWellFormed w v h run)).1
runs-IsWellFormed w _ h (beats v o run) = (heartbeat-Keeps o v (runs-IsWellFormed w v h run)).at
runs-IsWellFormed w _ h (lapses v o topic run) =
    (grace-Keeps o topic v (runs-IsWellFormed w v h run)).at
runs-IsWellFormed w _ h (scans v shuffle less o settings last managed run) =
    (scan_topics-Keeps o shuffle less settings last managed v (runs-IsWellFormed w v h run)).at
runs-IsWellFormed w _ h (opens v up id fs manual run) =
    (new_outbox-Keeps up id fs v manual (runs-IsWellFormed w v h run)).at
