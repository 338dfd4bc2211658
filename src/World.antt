-- ===== src/World.antt =====
-- What one call of the library sees: the database behind pgx, as sessions of statements that may
-- fail, and the clock.
pub mod Rules
pub mod Attempts
pub mod Keeps
use pgoutbox.Prelude.{Option, ℕ, String, Bool, List, [], ◌∷◌}
use pgoutbox.Db.{Db, Message}

-- Why a call failed, as far as `errors.Is(err, context.Canceled)` tells.
pub data Cause : Type 0 where
  canceled other : Cause

-- How the database answers one statement, begin or commit. After `lost` it was carried out, and the
-- answer did not arrive.
pub data Answer : Type 0 where
  works : Answer
  fails lost : Cause → Answer

pub data Error : Type 0 where
  empty_topic : Error
  no_flusher : Error
  empty_payload : ℕ → Error
  database : Cause → Error
  flusher_failed : Cause → Error
  publish_failed : Cause → Error
  exclusive_lease_held : Error
  exclusive_lease_required : Error
  lease_held : Error
  context_ended : Error
  invalid_schema_name : Error

pub data Result {ℓ} (A : Type ℓ) : Type ℓ where
  ok : A → Result A
  err : Error → Result A

-- Clocks, settings and other transactions' row locks, fixed for the time of one call. `now` is the
-- instance's clock and `db_now` the server's `now()`. `to_jsonb` is what Postgres stores of a payload in
-- a JSONB column and reads back from it: its own spelling of the document, or nothing for bytes that
-- are not JSON.
pub record Env : Type 0 where
  pub now : ℕ
  pub db_now : ℕ
  pub exclusive_lease_duration : ℕ
  pub maintenance_lease_timeout : ℕ
  pub locked_ids : ℕ → Bool
  pub locked_topics : String → Bool
  pub locked_leases : String → Bool
  pub to_jsonb : List ℕ → Option (List ℕ)

-- `db` is what is committed, and `work` the view of the open transaction. `delivered` lists the
-- batches that a flusher took; nothing rolls it back. `watchers` are the topics whose lease watcher
-- this instance runs. `answers` is the script of the database's
-- answers to come, all `works` after its end.
pub record World : Type 0 where
  pub env : Env
  pub open env use *
  pub db : Db
  pub work : Db
  pub delivered : List (List Message)
  pub watchers : List String
  pub answers : List Answer

abbrev pub M : Type 0 → Type 0
M A = World → Result A × World

unfoldable pub pure : {A : Type 0} → A → M A
pure a w = (ok a, w)

unfoldable pub raise : {A : Type 0} → Error → M A
raise e w = (err e, w)

unfoldable pub gets : {A : Type 0} → (World → A) → M A
gets f w = (ok (f w), w)

abbrev pub proceed : {A B : Type 0} → Result A → (A → M B) → M B
proceed (ok a) f w = f a w
proceed (err e) f w = (err e, w)

abbrev pub handle : {A : Type 0} → Result A → (Error → M A) → M A
handle (ok a) handler w = (ok a, w)
handle (err e) handler w = handler e w

infixl 5 ◌>>=◌ ◌>>◌
-- Opening this opens `pure`, `raise` and `gets` too.
unfoldable pub ◌>>=◌ : {A B : Type 0} → M A → (A → M B) → M B
unfolding pure raise gets
◌>>=◌ m f w = let (r, w') = m w in proceed r f w'

abbrev pub ◌>>◌ : {B : Type 0} → M (Unit {0}) → M B → M B
m >> k = m >>= λ _. k

-- `if err := m; err != nil { … }`: what `handler` does after an error, and the result then.
unfoldable pub catch : {A : Type 0} → M A → (Error → M A) → M A
catch m handler w = let (r, w') = m w in handle r handler w'

-- An error that is logged and dropped.
unfoldable pub logged : M (Unit {0}) → M (Unit {0})
unfolding catch
logged m = catch m (λ _. pure tt)

-- `err := m`, looked at later.
unfoldable pub attempt : {A : Type 0} → M A → M (Result A)
attempt m w = let (r, v) = m w in (ok r, v)

-- `defer`: what it does at the end changes no result.
unfoldable pub deferred : {A : Type 0} → M (Unit {0}) → M A → M A
unfolding logged
deferred last m w = let (r, v) = m w in (r, (logged last v).1)

-- The next answer of the script.
abbrev pub first_answer : List Answer → Answer
first_answer [] = works
first_answer (a ∷ more) = a

abbrev pub later_answers : List Answer → List Answer
later_answers [] = []
later_answers (a ∷ more) = more

abbrev pub answer : World → Answer
answer w = first_answer w.answers

abbrev pub rest : World → World
rest w = record w { answers = later_answers w.answers }

abbrev pub run_statement : {A : Type 0} → A → Answer → World → World → World → Result A × World
run_statement a works done lost_state undone = (ok a, done)
run_statement a (fails c) done lost_state undone = (err (database c), undone)
run_statement a (lost c) done lost_state undone = (err (database c), lost_state)

-- pool.Begin: a snapshot of what is committed.
unfoldable pub begin : M (Unit {0})
begin w = let r = rest w in run_statement tt (answer w) (record r { work = w.db }) r r

-- tx.Commit. Returning without it is the deferred tx.Rollback: `work` is read no more.
unfoldable pub commit : M (Unit {0})
commit w =
    let r = rest w in
    run_statement tt (answer w) (record r { db = w.work }) (record r { db = w.work }) r

-- A statement in the open transaction. After an error the transaction can only be rolled back.
unfoldable pub tx_exec : (Db → Db) → M (Unit {0})
tx_exec f w = let r = rest w in run_statement tt (answer w) (record r { work = f w.work }) r r

-- A query in the open transaction.
unfoldable pub tx_query : {A : Type 0} → (Db → A) → M A
tx_query f w = let r = rest w in run_statement (f w.work) (answer w) r r r

-- A statement on the pool commits by itself.
unfoldable pub pool_exec : (Db → Db) → M (Unit {0})
pool_exec f w =
    let r = rest w in
    run_statement tt (answer w) (record r { db = f w.db }) (record r { db = f w.db }) r

-- A query on the pool.
unfoldable pub pool_query : {A : Type 0} → (Db → A) → M A
pool_query f w = let r = rest w in run_statement (f w.db) (answer w) r r r

-- A statement on the pool that changes rows and returns some.
unfoldable pub pool_returning : {A : Type 0} → (Db → Db × A) → M A
pool_returning f w =
    let r = rest w in
    let (after, a) = f w.db in
    run_statement a (answer w) (record r { db = after }) (record r { db = after }) r
