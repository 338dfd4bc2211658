-- ===== src/Outbox/Lease/Faults.antt =====
-- How many faults of the database an attempt on a lease takes: an attempt that fails has met one.
use pgoutbox.Prelude.{
  ℕ, zero, suc, ◌≤◌, String, ◌≡◌, refl, true, false, inl, inr, none, some, List, [], ◌∷◌, arith,
}
use pgoutbox.Db.{Db}
use pgoutbox.Db.Topics.{GetTopicForUpdateRow, get_topic_for_update, insert_topic_if_absent}
use pgoutbox.World.{
  World, Result, ok, err, Answer, works, fails, lost, M, ◌>>=◌, rest, first_answer, later_answers,
  proceed, run_statement, begin, commit, tx_exec, tx_query, Error, context_ended,
}
use pgoutbox.World.Rules.{Gives, gets_rule, pure_rule, if_rule}
use pgoutbox.Outbox.{Outbox}
use pgoutbox.Outbox.Lease.{held_by_other, claim_row, take_lease, try_acquire_topic_lease}
use pgoutbox.Outbox.Lease.Row.{find_topic-insert}

-- The answers of a script that are not `works`.
abbrev pub faults : List Answer → ℕ
faults [] = zero
faults (works ∷ more) = faults more
faults (fails c ∷ more) = suc (faults more)
faults (lost c ∷ more) = suc (faults more)

pub works-answer : (answers : List Answer) → faults answers ≤ 0 → first_answer answers ≡ works
works-answer [] le = refl
works-answer (works ∷ more) le = refl
works-answer (fails c ∷ more) le = absurd (omega arith)
works-answer (lost c ∷ more) le = absurd (omega arith)

-- The faults that an error of AcquireTopic stands for: the end of its context is none.
abbrev pub faults_of : Error → ℕ
faults_of context_ended = zero
faults_of _ = 1

pub faults_of_le : (e : Error) → faults_of e ≤ 1
faults_of_le context_ended = omega arith
faults_of_le _ = omega arith

-- At most `n` faults are left, and fewer after an error.
abbrev pub Charged : {A : Type 0} → ℕ → Result A → World → Type 0
Charged n (ok a) v = faults v.answers ≤ n
Charged n (err e) v = suc (faults v.answers) ≤ n

module _ (n : ℕ) where
  statement-Charged :
      {A B : Type 0} (k : A → M B) (a : A) (answers : List Answer) (done lost_state undone : World)
      → faults answers ≤ n
      → done.answers ≡ later_answers answers
      → lost_state.answers ≡ later_answers answers
      → undone.answers ≡ later_answers answers
      → (faults done.answers ≤ n → Gives (k a) done (Charged n))
      → let (r, v) = run_statement a (first_answer answers) done lost_state undone in
        Charged n (proceed r k v).0 (proceed r k v).1
  statement-Charged k a [] done lost_state undone le d l u g = (g (rw d le)).at
  statement-Charged k a (works ∷ more) done lost_state undone le d l u g = (g (rw d le)).at
  statement-Charged k a (fails c ∷ more) done lost_state undone le d l u g = rw u le
  statement-Charged k a (lost c ∷ more) done lost_state undone le d l u g = rw l le

  module _ {B : Type 0} {w : World} (le : faults w.answers ≤ n) where
    begin-Charged :
        (k : Unit {0} → M B)
        → (faults (rest w).answers ≤ n → Gives (k tt) (record (rest w) { work = w.db }) (Charged n))
        → Gives (begin >>= k) w (Charged n)
    unfolding begin ◌>>=◌
    begin-Charged k g = record { at = statement-Charged k tt w.answers _ _ _ le refl refl refl g }

    tx_exec-Charged :
        (f : Db → Db) (k : Unit {0} → M B)
        → (faults (rest w).answers ≤ n
            → Gives (k tt) (record (rest w) { work = f w.work }) (Charged n))
        → Gives (tx_exec f >>= k) w (Charged n)
    unfolding tx_exec ◌>>=◌
    tx_exec-Charged f k g = record {
      at = statement-Charged k tt w.answers _ _ _ le refl refl refl g;
    }

    tx_query-Charged :
        {A : Type 0} (f : Db → A) (k : A → M B)
        → (faults (rest w).answers ≤ n → Gives (k (f w.work)) (rest w) (Charged n))
        → Gives (tx_query f >>= k) w (Charged n)
    unfolding tx_query ◌>>=◌
    tx_query-Charged f k g = record {
      at = statement-Charged k (f w.work) w.answers _ _ _ le refl refl refl g;
    }

    commit-Charged :
        (k : Unit {0} → M B)
        → (faults (rest w).answers ≤ n → Gives (k tt) (record (rest w) { db = w.work }) (Charged n))
        → Gives (commit >>= k) w (Charged n)
    unfolding commit ◌>>=◌
    commit-Charged k g = record { at = statement-Charged k tt w.answers _ _ _ le refl refl refl g }

  module _ (o : Outbox) (topic : String) where
    claim_some-Charged :
        (row : GetTopicForUpdateRow) (now : ℕ) (w : World)
        → faults w.answers ≤ n
        → Gives (claim_row o topic now (some row)) w (Charged n)
    unfolding claim_row take_lease
    claim_some-Charged row now w le =
        if_rule (held_by_other o.instance_id now row) (λ _. pure_rule false le)
          (λ _. gets_rule _ _ (
            tx_exec-Charged le _ _ (λ once.
              tx_exec-Charged once _ _ (λ twice. commit-Charged twice _ (pure_rule true)))))

    -- The row is there, since the attempt has just inserted it if it was absent.
    claim_row-Charged :
        (db : Db) (db_now now : ℕ) (w : World)
        → faults w.answers ≤ n
        → Gives
            (claim_row o topic now
              (get_topic_for_update topic (insert_topic_if_absent db_now topic none db)))
            w
            (Charged n)
    unfolding get_topic_for_update
    claim_row-Charged db db_now now w le = elim (find_topic-insert db_now topic db) [
      | inl (absent, new) ↦ rw (new, get_topic_for_update) (claim_some-Charged _ now w le)
      | inr (t, d, there, kept) ↦ rw (kept, get_topic_for_update) (claim_some-Charged _ now w le)
    ]

    pub try_acquire-Charged :
        (w : World) → faults w.answers ≤ n → Gives (try_acquire_topic_lease o topic) w (Charged n)
    unfolding try_acquire_topic_lease
    try_acquire-Charged w le = begin-Charged le _ (λ a. gets_rule _ _ (
        tx_exec-Charged a _ _ (λ b.
          tx_query-Charged b _ _ (λ c. gets_rule _ _ (claim_row-Charged w.db w.db_now w.now _ c)))))
