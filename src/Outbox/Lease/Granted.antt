-- ===== src/Outbox/Lease/Granted.antt =====
-- The ways in which tryAcquireTopicLease can end.
use pgoutbox.Prelude.{
  ℕ, ◌+◌, String, ◌≡◌, ◌⊎◌, inl, inr, refl, sym, ◌∙◌, Bool, true, false, none, some, arith,
  number_test, text_test,
}
use pgoutbox.Db.{Db, Topic}
use pgoutbox.Db.Topics.{
  GetTopicForUpdateRow, joined_row, find_topic, get_topic_for_update, insert_topic_if_absent,
}
use pgoutbox.World.{World, Result, ok, err, Error, exclusive_lease_held, rest}
use pgoutbox.World.Rules.{
  Gives, begin_rule, tx_exec_rule, tx_query_rule, commit_rule, gets_rule, pure_rule, if_rule,
  HasLost, HasLost-first, HasLost-later_n, later_n,
}
use pgoutbox.Outbox.{Outbox}
use pgoutbox.Outbox.Access.{check_row}
use pgoutbox.Outbox.Lease.{
  own_session, held_by_other, claim_row, take_lease, try_acquire_topic_lease,
}
use pgoutbox.Outbox.Lease.Row.{lease_row, granted_row, find_topic-insert, sessions-insert}

-- What blocks an acquire is what the access check calls held.
check_row-held :
    (me now : ℕ) (row : GetTopicForUpdateRow)
    → held_by_other me now row ≡ true
    → check_row me now (some row) ≡ err exclusive_lease_held
unfolding check_row held_by_other
check_row-held me now row h = ground arith

module _ (o : Outbox) (topic : String) (w : World) where
  abbrev expiry : ℕ
  expiry = w.now + w.exclusive_lease_duration

  -- How tryAcquireTopicLease can end.
  pub data Tries (r : Result Bool) (w' : World) : Type 0 where
    failed : (e : Error) → r ≡ err e → (w'.db ≡ w.db) ⊎ HasLost w.answers → Tries r w'
    busy :
        r ≡ ok false
        → w'.db ≡ w.db
        → check_row o.instance_id w.now (get_topic_for_update topic w.db) ≡ err exclusive_lease_held
        → Tries r w'
    granted :
        ((row : GetTopicForUpdateRow)
          → get_topic_for_update topic w.db ≡ some row
          → held_by_other o.instance_id w.now row ≡ false)
        → r ≡ ok true
        → w'.env ≡ w.env
        → get_topic_for_update topic w'.db ≡ some (lease_row o.instance_id expiry)
        → Tries r w'

  abbrev seeded : Db
  seeded = insert_topic_if_absent w.db_now topic none w.db

  abbrev reading : World
  reading = rest (rest (record (rest w) { work = seeded }))

  abbrev Free : Type 0
  Free =
      (row : GetTopicForUpdateRow)
      → get_topic_for_update topic w.db ≡ some row
      → held_by_other o.instance_id w.now row ≡ false

  take_lease-Tries :
      (t : Topic)
      → find_topic topic seeded.topics ≡ some t
      → Free
      → Gives (take_lease o topic) reading Tries
  unfolding take_lease own_session
  take_lease-Tries t there unheld = gets_rule _ _ (
      tx_exec_rule _ _ (λ c. failed _ refl (inl refl))
        (tx_exec_rule _ _ (λ c. failed _ refl (inl refl))
          (commit_rule _ (λ c. failed _ refl (inl refl))
            (λ c l.
              failed _ refl
                (inr (HasLost-later_n 5 w.answers (HasLost-first (later_n 5 w.answers) l))))
            (pure_rule true
              (granted unheld refl refl (granted_row (own_session o w) topic seeded t there))))))

  claim_kept-Tries :
      (row : GetTopicForUpdateRow) (t : Topic)
      → find_topic topic seeded.topics ≡ some t
      → get_topic_for_update topic w.db ≡ some row
      → Gives (claim_row o topic w.now (some row)) reading Tries
  unfolding claim_row
  claim_kept-Tries row t there old =
      if_rule (held_by_other o.instance_id w.now row)
        (λ h. pure_rule false (busy refl refl (rw old (check_row-held o.instance_id w.now row h))))
        (λ h. take_lease-Tries t there (λ r e. let same : some r ≡ some row = sym e ∙ old in cc))

  claim_new-Tries :
      (row : GetTopicForUpdateRow) (t : Topic)
      → find_topic topic seeded.topics ≡ some t
      → get_topic_for_update topic w.db ≡ none
      → held_by_other o.instance_id w.now row ≡ false
      → Gives (claim_row o topic w.now (some row)) reading Tries
  unfolding claim_row
  claim_new-Tries row t there absent unheld =
      rw unheld (take_lease-Tries t there (λ r e. let clash : some r ≡ none = sym e ∙ absent in cc))

  claim_row-Tries :
      Gives (claim_row o topic w.now (get_topic_for_update topic seeded)) reading Tries
  unfolding get_topic_for_update held_by_other joined_row
  claim_row-Tries = elim (find_topic-insert w.db_now topic w.db) [
    | inl (absent, new) ↦
        rw (new, get_topic_for_update)
          (claim_new-Tries _ _ new (rw (absent, get_topic_for_update) refl) refl)
    | inr (t, d, there, kept) ↦
        rw (kept, get_topic_for_update)
          (claim_kept-Tries _ _ kept (rw (there, get_topic_for_update, sessions-insert) refl))
  ]

  pub try_acquire-Tries : Gives (try_acquire_topic_lease o topic) w Tries
  unfolding try_acquire_topic_lease
  try_acquire-Tries =
      begin_rule _ (λ c. failed _ refl (inl refl))
        (gets_rule _ _ (
          tx_exec_rule _ _ (λ c. failed _ refl (inl refl))
            (tx_query_rule _ _ (λ c. failed _ refl (inl refl)) (gets_rule _ _ claim_row-Tries))))
