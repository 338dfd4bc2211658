-- ===== src/World/Rules.antt =====
-- Rules for what an action gives, one for each statement that may begin a `do` block.
use pgoutbox.Prelude.{ℕ, zero, suc, ◌≡◌, refl, List, [], ◌∷◌, Bool, true, false, if◌then◌else◌}
use pgoutbox.Db.{Db}
use pgoutbox.World.{
  World, Result, ok, err, Error, database, Cause, Answer, works, fails, lost, M, ◌>>=◌, answer,
  rest, first_answer, later_answers, proceed, handle, catch, run_statement, gets, pure, raise,
  logged, begin, commit, tx_exec, tx_query, pool_exec, pool_query, pool_returning,
}

-- The result and the world that `m` ends in satisfy `Q`.
pub record Gives {A : Type 0} (m : M A) (w : World) (Q : Result A → World → Type 0) : Type 0 where
  pub at : Q (m w).0 (m w).1

-- Some answer of the script is lost.
abbrev pub HasLost : List Answer → Type 0
HasLost [] = ⊥
HasLost (works ∷ more) = HasLost more
HasLost (fails c ∷ more) = HasLost more
HasLost (lost c ∷ more) = Unit

HasLost-later : (answers : List Answer) → HasLost (later_answers answers) → HasLost answers
HasLost-later [] h = h
HasLost-later (works ∷ more) h = h
HasLost-later (fails c ∷ more) h = h
HasLost-later (lost c ∷ more) h = tt

abbrev pub later_n : ℕ → List Answer → List Answer
later_n zero answers = answers
later_n (suc n) answers = later_answers (later_n n answers)

pub HasLost-later_n :
    (n : ℕ) (answers : List Answer) → HasLost (later_n n answers) → HasLost answers
HasLost-later_n zero answers h = h
HasLost-later_n (suc n) answers h = HasLost-later_n n answers (HasLost-later (later_n n answers) h)

pub HasLost-first :
    (answers : List Answer) {c : Cause} → first_answer answers ≡ lost c → HasLost answers
HasLost-first [] h = cc
HasLost-first (works ∷ more) h = cc
HasLost-first (fails c ∷ more) h = cc
HasLost-first (lost c ∷ more) h = tt

module _ {A B : Type 0} (Q : Result B → World → Type 0) (k : A → M B) where
  -- What a statement and the rest of its block give, by the answer.
  statement_rule :
      (a : A) (x : Answer) (done lost_state undone : World)
      → ((c : Cause) → Q (err (database c)) undone)
      → ((c : Cause) → x ≡ lost c → Q (err (database c)) lost_state)
      → Gives (k a) done Q
      → let (r, w) = run_statement a x done lost_state undone in
        Q (proceed r k w).0 (proceed r k w).1
  statement_rule a works done lost_state undone f l g = g.at
  statement_rule a (fails c) done lost_state undone f l g = f c
  statement_rule a (lost c) done lost_state undone f l g = l c refl

module _ {B : Type 0} {Q : Result B → World → Type 0} {w : World} where
  pub begin_rule :
      (k : Unit {0} → M B)
      → ((c : Cause) → Q (err (database c)) (rest w))
      → Gives (k tt) (record (rest w) { work = w.db }) Q
      → Gives (begin >>= k) w Q
  unfolding begin ◌>>=◌
  begin_rule k bad good = record {
    at = statement_rule Q k tt (answer w) _ _ _ bad (λ c _. bad c) good;
  }

  pub tx_exec_rule :
      (f : Db → Db) (k : Unit {0} → M B)
      → ((c : Cause) → Q (err (database c)) (rest w))
      → Gives (k tt) (record (rest w) { work = f w.work }) Q
      → Gives (tx_exec f >>= k) w Q
  unfolding tx_exec ◌>>=◌
  tx_exec_rule f k bad good = record {
    at = statement_rule Q k tt (answer w) _ _ _ bad (λ c _. bad c) good;
  }

  pub tx_query_rule :
      {A : Type 0} (f : Db → A) (k : A → M B)
      → ((c : Cause) → Q (err (database c)) (rest w))
      → Gives (k (f w.work)) (rest w) Q
      → Gives (tx_query f >>= k) w Q
  unfolding tx_query ◌>>=◌
  tx_query_rule f k bad good = record {
    at = statement_rule Q k (f w.work) (answer w) _ _ _ bad (λ c _. bad c) good;
  }

  pub commit_rule :
      (k : Unit {0} → M B)
      → ((c : Cause) → Q (err (database c)) (rest w))
      → ((c : Cause) → answer w ≡ lost c → Q (err (database c)) (record (rest w) { db = w.work }))
      → Gives (k tt) (record (rest w) { db = w.work }) Q
      → Gives (commit >>= k) w Q
  unfolding commit ◌>>=◌
  commit_rule k bad unsure good = record {
    at = statement_rule Q k tt (answer w) _ _ _ bad unsure good;
  }

  pub pool_exec_rule :
      (f : Db → Db) (k : Unit {0} → M B)
      → ((c : Cause) → Q (err (database c)) (rest w))
      → ((c : Cause) → answer w ≡ lost c → Q (err (database c)) (record (rest w) { db = f w.db }))
      → Gives (k tt) (record (rest w) { db = f w.db }) Q
      → Gives (pool_exec f >>= k) w Q
  unfolding pool_exec ◌>>=◌
  pool_exec_rule f k bad unsure good = record {
    at = statement_rule Q k tt (answer w) _ _ _ bad unsure good;
  }

  pub pool_query_rule :
      {A : Type 0} (f : Db → A) (k : A → M B)
      → ((c : Cause) → Q (err (database c)) (rest w))
      → Gives (k (f w.db)) (rest w) Q
      → Gives (pool_query f >>= k) w Q
  unfolding pool_query ◌>>=◌
  pool_query_rule f k bad good = record {
    at = statement_rule Q k (f w.db) (answer w) _ _ _ bad (λ c _. bad c) good;
  }

  pub pool_returning_rule :
      {A : Type 0} (f : Db → Db × A) (k : A → M B)
      → ((c : Cause) → Q (err (database c)) (rest w))
      → ((c : Cause)
          → answer w ≡ lost c
          → Q (err (database c)) (record (rest w) { db = (f w.db).0 }))
      → Gives (k (f w.db).1) (record (rest w) { db = (f w.db).0 }) Q
      → Gives (pool_returning f >>= k) w Q
  unfolding pool_returning ◌>>=◌
  pool_returning_rule f k bad unsure good = record {
    at = statement_rule Q k (f w.db).1 (answer w) _ _ _ bad unsure good;
  }

  pub gets_rule :
      {A : Type 0} (f : World → A) (k : A → M B) → Gives (k (f w)) w Q → Gives (gets f >>= k) w Q
  unfolding ◌>>=◌
  gets_rule f k g = record { at = g.at }

  pub pure_rule : (b : B) → Q (ok b) w → Gives (pure b) w Q
  unfolding pure
  pure_rule b q = record { at = q }

  pub raise_rule : (e : Error) → Q (err e) w → Gives (raise e) w Q
  unfolding raise
  raise_rule e q = record { at = q }

-- A block whose first action is itself a block.
pub nest_rule :
    {A B : Type 0} {Q : Result B → World → Type 0} {w : World} (m : M A) (k : A → M B)
    → Gives m w (λ r v. Q (proceed r k v).0 (proceed r k v).1)
    → Gives (m >>= k) w Q
unfolding ◌>>=◌
nest_rule m k g = record { at = g.at }

-- The rest of a block, by the result so far.
pub proceed_rule :
    {A B : Type 0} (Q : Result B → World → Type 0) (r : Result A) (v : World) (k : A → M B)
    → ((e : Error) → r ≡ err e → Q (err e) v)
    → ((a : A) → r ≡ ok a → Gives (k a) v Q)
    → Q (proceed r k v).0 (proceed r k v).1
proceed_rule Q (ok a) v k bad good = (good a refl).at
proceed_rule Q (err e) v k bad good = bad e refl

pub if_rule :
    {B : Type 0} {Q : Result B → World → Type 0} {w : World} (b : Bool) {m n : M B}
    → (b ≡ true → Gives m w Q)
    → (b ≡ false → Gives n w Q)
    → Gives (if b then m else n) w Q
if_rule true p q = p refl
if_rule false p q = q refl

-- A block whose first action has a handler, by what that action gives.
pub catch_rule :
    {A B : Type 0} {P : Result A → World → Type 0} {Q : Result B → World → Type 0} {w : World}
    (m : M A) (handler : Error → M A) (k : A → M B)
    → Gives m w P
    → ((e : Error) (v : World) → P (err e) v → Gives (handler e >>= k) v Q)
    → ((a : A) (v : World) → P (ok a) v → Gives (k a) v Q)
    → Gives (catch m handler >>= k) w Q
unfolding catch ◌>>=◌
catch_rule {A} {B} {P} {Q} {w} m handler k g bad good = record {
  at = by_result (m w).0 (m w).1 g.at;
}
  where
    by_result :
        (r : Result A) (v : World)
        → P r v
        → let (r', v') = handle r handler v in Q (proceed r' k v').0 (proceed r' k v').1
    by_result (ok a) v p = (good a v p).at
    by_result (err e) v p = (bad e v p).at

-- A logged error is dropped.
pub logged-ok : (m : M (Unit {0})) (w : World) → (logged m w).0 ≡ ok tt
unfolding logged catch pure
logged-ok m w = by_result (m w).0 (m w).1
  where
    by_result : (r : Result (Unit {0})) (v : World) → (handle r (λ _. pure tt) v).0 ≡ ok tt
    by_result (ok tt) v = refl
    by_result (err e) v = refl

-- A block whose error is logged and dropped.
pub logged_rule :
    {Q : World → Type 0} {w : World} (m : M (Unit {0}))
    → Gives m w (λ r v. Q v)
    → Gives (logged m) w (λ r v. Q v)
unfolding logged catch pure
logged_rule {Q} {w} m g = record { at = by_result (m w).0 (m w).1 g.at }
  where
    by_result : (r : Result (Unit {0})) (v : World) → Q v → Q (handle r (λ _. pure tt) v).1
    by_result (ok a) v q = q
    by_result (err e) v q = q

module _ (Q : Result (Unit {0}) → World → Type 0) (handler : Error → M (Unit {0})) where
  handled_rule :
      (x : Answer) (done lost_state undone : World)
      → Q (ok tt) done
      → ((c : Cause) → Gives (handler (database c)) undone Q)
      → ((c : Cause) → Gives (handler (database c)) lost_state Q)
      → let (r, v) = run_statement tt x done lost_state undone in
        Q (handle r handler v).0 (handle r handler v).1
  handled_rule works done lost_state undone good f l = good
  handled_rule (fails c) done lost_state undone good f l = (f c).at
  handled_rule (lost c) done lost_state undone good f l = (l c).at

-- A write on the pool, at the end of a block, whose error is handled.
pub catch_pool_exec_rule :
    {Q : Result (Unit {0}) → World → Type 0} {w : World} (f : Db → Db)
    (handler : Error → M (Unit {0}))
    → Q (ok tt) (record (rest w) { db = f w.db })
    → ((c : Cause) → Gives (handler (database c)) (rest w) Q)
    → ((c : Cause) → Gives (handler (database c)) (record (rest w) { db = f w.db }) Q)
    → Gives (catch (pool_exec f) handler) w Q
unfolding catch pool_exec
catch_pool_exec_rule {Q} {w} f handler good failed unsure = record {
  at = handled_rule Q handler (answer w) _ _ _ good failed unsure;
}
