-- ===== src/Lib.antt =====
-- pgoutbox: a transactional outbox on Postgres, for Go.
--
-- An application adds messages to a topic in its own transaction (AddMessages); ProcessMessages hands
-- them in batches to the topic's Flusher, in a transaction that also deletes them. A topic may be
-- leased to one instance (AcquireTopic, ReleaseTopic), which alone may process it while the lease is
-- live. The repository's parts are modelled as follows.
--
--   Prelude    shared names, Boolean tests, lists measured by native numbers
--   Sql        WHERE, ORDER BY, UPDATE and the like over tables as lists of rows
--   Db         sqlc/models.go and sqlc/schema.sql: the tables. Db/Messages, Db/Listing, Db/Topics,
--              Db/Sessions and Db/Leases hold the statements of sqlc/queries.sql.go and
--              sqlc/copyfrom.go, one function each, under the statement's name; the insert trigger is
--              in Db/Topics.
--              Db/IsWellFormed states the constraints and which statements keep them.
--   World      what one call sees: pgx, clocks, row locks of others. World/Rules, World/Attempts and
--              World/Keeps have the rules that the proofs about calls apply.
--   Outbox     outbox.go: the instance's state and AddFlusher. Outbox/Access is
--              checkExclusiveAccessForUpdate, Outbox/Process is ProcessMessages, Outbox/Add is
--              AddMessages and Notifier, Outbox/Lease is the exclusive leases and Outbox/Renewer is
--              runConsumerSessionRenewer. Of the cleanup of expired messages, Outbox/Maintenance is
--              runMaintenance and finishDormantTopic, Outbox/Turns is runMaintenanceLoop,
--              Outbox/Claims is claimTopics and claimClassShare, Outbox/Loops is reconcileLoops and
--              reapExitedLoops, Outbox/Scan is scanTopics and runTopicScanner. The child modules hold
--              the proofs, named for what they prove; Outbox/Invariant and Outbox/Runs are about the
--              constraints of the schema.
--   Subscribe  subscribe.go: a processing pass, and the loop of Subscribe as a list of turns
--   Migrate    migrate.go: schema names and the order of a migration
--   Wrap       internal/dbwrap/wrap.go: the rewriting that qualifies the table names of a query
--   Construct  outbox.go: options and NewOutbox
--   PubSub     pgpubsub.go and pubsub.go: subscribers, dispatch and the listener as steps, and their
--              specification
--   Watcher    exclusive_lease_watcher.go: the goroutines of one topic as a step relation
--   Tests      a small database, and each result applied to it
--
-- A Go method is a function in the monad M: it takes the instance and returns a result and the next
-- world. A method that builds an error from another keeps the sentinel (ErrExclusiveLeaseHeld is
-- exclusive_lease_held, ErrExclusiveLeaseRequired is exclusive_lease_required) or the kind of the
-- failed step; texts of errors and logs are not modelled. `pool.Begin` opens a view on what is
-- committed, statements in the transaction change that view, Commit publishes it, and returning
-- without Commit drops it, which is the deferred Rollback.
--
-- The database answers each statement by an arbitrary script: it works, fails with nothing done, or is
-- lost, where the work was done and the caller sees an error. No theorem assumes more of the script
-- than it says. Row locks of other transactions (SKIP LOCKED) are parameters, arbitrary in the
-- theorems. Two transactions that interleave on the same rows are not modelled: a call sees the
-- database as one snapshot, which is what the topic row lock gives ProcessMessages and the lease
-- operations on one topic. Clocks and durations are native numbers, in nanoseconds from an origin
-- before every instant in use, so that no subtraction in use falls below it; the instance's clock and
-- the server's are separate. A uuid is a number. What the database
-- stores of an instant is exact, where TIMESTAMPTZ rounds to microseconds. A payload is a list of
-- bytes with [] for the empty one; what a JSONB column makes of it, which is Postgres's spelling of the
-- document or a refusal, is the parameter to_jsonb, arbitrary in the theorems.
--
-- All loops are over lists, by structural recursion. The retry loop of AcquireTopic runs over a list of
-- wake-ups, arbitrary in length and content, each with the clocks and the database of that moment, and
-- its context ends after the last; so no fuel is needed.
--
-- Of the lease watcher, Watcher takes a caller that makes one call at a time, which is what a topic's
-- AcquireTopic and ReleaseTopic are unless they overlap; what it shows is for such a caller only. The
-- onCancel of a goroutine is one step with the CompareAndDelete that follows it, the close of done a
-- step of its own. Outbox/Lease sees of a watcher only whether it runs.
--
-- A pass of Subscribe takes the number of times that it finds its context alive, and its loop a list of
-- turns, after the last of which the context has ended. What others commit between two calls, or while a
-- call waits, is an argument.
--
-- The subscribers of a pgPubSub are a step function over a map and a heap of channels, with the
-- mailboxes of PubSub/Spec, which answer the same actions, as what it promises; a step that would panic has that as its outcome.
--
-- The loops that run in the background, the scanner and the maintenance loop of a topic, are functions
-- of what happens while they wait, given as a list: the clocks and the database at the next wake-up,
-- and for the scanner which loops have exited. Their interleaving with each other is in that list only.
-- The listing of the topics with messages follows its recursive query, on as many rows as there are
-- messages, which Db/Listing/Complete shows to be enough; the collation of the column is a parameter.
--
-- Not modelled: the start and the shutdown of an outbox's goroutines, Pub and the dialing of the listener
-- connection, and what goose does in a migration, which is an argument.
pub mod Prelude
pub mod Sql
pub mod Db
pub mod World
pub mod Outbox
pub mod Subscribe
pub mod Migrate
pub mod Wrap
pub mod Construct
pub mod PubSub
pub mod Watcher
pub mod Tests
