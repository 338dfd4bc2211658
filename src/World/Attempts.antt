-- ===== src/World/Attempts.antt =====
-- Rules for blocks that go on whatever an action returns.
use pgoutbox.Prelude.{◌≡◌, refl, ap, ◌∙◌}
use pgoutbox.Db.{Db}
use pgoutbox.World.{
  World, Result, ok, err, database, Cause, Answer, works, fails, lost, M, ◌>>=◌, answer, rest,
  proceed, handle, catch, run_statement, pure, logged, attempt, pool_query,
}
use pgoutbox.World.Rules.{Gives, logged-ok}

-- A block whose first action is known to succeed.
pub known_rule :
    {A B : Type 0} {Q : Result B → World → Type 0} {w v : World} {a : A} (m : M A) (k : A → M B)
    → m w ≡ (ok a, v)
    → Gives (k a) v Q
    → Gives (m >>= k) w Q
unfolding ◌>>=◌
known_rule m k e g = record { at = rw e g.at }

-- A block whose first action is attempted: whatever its result, the block goes on.
pub attempt_rule :
    {A B : Type 0} {Q : Result B → World → Type 0} {w : World} (m : M A) (k : Result A → M B)
    → ((r : Result A) (v : World) → Gives (k r) v Q)
    → Gives (attempt m >>= k) w Q
unfolding attempt ◌>>=◌
attempt_rule {w = w} m k g = record { at = (g (m w).0 (m w).1).at }

-- Logging the error of an action leaves what the action leaves.
pub logged-world : (m : M (Unit {0})) (w : World) → (logged m w).1 ≡ (m w).1
unfolding logged catch pure
logged-world m w = by_result (m w).0 (m w).1
  where
    by_result : (r : Result (Unit {0})) (v : World) → (handle r (λ _. pure tt) v).1 ≡ v
    by_result (ok _) v = refl
    by_result (err e) v = refl

-- A block that goes on after an error that is logged.
pub logged_then_rule :
    {B : Type 0} {Q : Result B → World → Type 0} {w : World} (m : M (Unit {0})) (k : Unit {0} → M B)
    → Gives (k tt) (m w).1 Q
    → Gives (logged m >>= k) w Q
logged_then_rule {w = w} m k g =
    known_rule (logged m) k
      (ap (λ r. (r, (logged m w).1)) (logged-ok m w) ∙ ap (λ v. (ok tt, v)) (logged-world m w)) g

-- A query on the pool that is attempted.
pub attempt_query_rule :
    {A B : Type 0} {Q : Result B → World → Type 0} {w : World} (f : Db → A) (k : Result A → M B)
    → ((c : Cause) → Gives (k (err (database c))) (rest w) Q)
    → Gives (k (ok (f w.db))) (rest w) Q
    → Gives (attempt (pool_query f) >>= k) w Q
unfolding attempt pool_query ◌>>=◌
attempt_query_rule {A} {B} {Q} {w} f k bad good = record { at = by_answer (answer w) }
  where
    by_answer :
        (x : Answer)
        → let (r, v) = run_statement (f w.db) x (rest w) (rest w) (rest w) in Q (k r v).0 (k r v).1
    by_answer works = good.at
    by_answer (fails c) = (bad c).at
    by_answer (lost c) = (bad c).at

-- A block whose first action never fails.
pub never_fails_rule :
    {A B : Type 0} {Q : Result B → World → Type 0} {w : World} (m : M A) (k : A → M B)
    → Gives m w (λ r v. (a : A) × (r ≡ ok a))
    → ((a : A) (v : World) → Gives (k a) v Q)
    → Gives (m >>= k) w Q
unfolding ◌>>=◌
never_fails_rule {A} {B} {Q} {w} m k g later = record { at = by_result (m w).0 (m w).1 g.at }
  where
    by_result :
        (r : Result A) (v : World) → (a : A) × (r ≡ ok a) → Q (proceed r k v).0 (proceed r k v).1
    by_result r v (a, e) = rw e ((later a v).at)
