-- ===== src/World/Keeps.antt =====
-- Rules for what holds of the world whatever an action returns.
use pgoutbox.Db.{Db}
use pgoutbox.World.{
  World, Result, ok, err, Error, Answer, works, fails, lost, M, ◌>>=◌, answer, rest, proceed,
  handle, catch, run_statement, pure, pool_returning, attempt, pool_query, pool_exec,
}
use pgoutbox.World.Rules.{Gives, nest_rule}

answered :
    {A : Type 0} (Q : World → Type 0) (a : A) (x : Answer) (done undone : World)
    → Q done
    → Q undone
    → Q (run_statement a x done done undone).1
answered Q a works done undone p q = p
answered Q a (fails c) done undone p q = q
answered Q a (lost c) done undone p q = p

module _ {A : Type 0} {Q : World → Type 0} {w : World} where
  pub bind_rule :
      {B : Type 0} (m : M A) (k : A → M B)
      → Gives m w (λ r v. Q v)
      → ((a : A) (v : World) → Q v → Gives (k a) v (λ r v. Q v))
      → Gives (m >>= k) w (λ r v. Q v)
  bind_rule {B} m k g later = nest_rule m k (record { at = by_result (m w).0 (m w).1 g.at })
    where
      by_result : (r : Result A) (v : World) → Q v → Q (proceed r k v).1
      by_result (ok a) v q = (later a v q).at
      by_result (err e) v q = q

  -- A block whose first action keeps one thing and whose rest makes another of it.
  pub then_rule :
      {B : Type 0} {P : Result B → World → Type 0} (m : M A) (k : A → M B)
      → Gives m w (λ r v. Q v)
      → ((e : Error) (v : World) → Q v → P (err e) v)
      → ((a : A) (v : World) → Q v → Gives (k a) v P)
      → Gives (m >>= k) w P
  then_rule {B} {P} m k g bad later = nest_rule m k (record { at = by_result (m w).0 (m w).1 g.at })
    where
      by_result : (r : Result A) (v : World) → Q v → P (proceed r k v).0 (proceed r k v).1
      by_result (ok a) v q = (later a v q).at
      by_result (err e) v q = bad e v q

  pub recovered_rule :
      (a : A) (m : M A) → Gives m w (λ r v. Q v) → Gives (catch m (λ _. pure a)) w (λ r v. Q v)
  unfolding catch pure
  recovered_rule a m g = record { at = by_result (m w).0 (m w).1 g.at }
    where
      by_result : (r : Result A) (v : World) → Q v → Q (handle r (λ _. pure a) v).1
      by_result (ok b) v q = q
      by_result (err e) v q = q

  pub returning_rule :
      (f : Db → Db × A)
      → Q (rest w)
      → Q (record (rest w) { db = (f w.db).0 })
      → Gives (pool_returning f) w (λ r v. Q v)
  unfolding pool_returning
  returning_rule f undone done = record { at = answered Q (f w.db).1 (answer w) _ _ done undone }

  -- A statement whose error is looked at later.
  pub attempted_rule : (m : M A) → Gives m w (λ r v. Q v) → Gives (attempt m) w (λ r v. Q v)
  unfolding attempt
  attempted_rule m g = record { at = g.at }

  pub querying_rule : (f : Db → A) → Q (rest w) → Gives (pool_query f) w (λ r v. Q v)
  unfolding pool_query
  querying_rule f undone = record { at = answered Q (f w.db) (answer w) _ _ undone undone }

-- A write on the pool.
pub executing_rule :
    {Q : World → Type 0} {w : World} (f : Db → Db)
    → Q (rest w)
    → Q (record (rest w) { db = f w.db })
    → Gives (pool_exec f) w (λ r v. Q v)
unfolding pool_exec
executing_rule {Q} {w} f undone done = record { at = answered Q tt (answer w) _ _ done undone }
