-- ===== src/Outbox/Lease/Exclusion.antt =====
-- What an exclusive lease excludes.
use pgoutbox.Prelude.{
  ◌∙◌, ℕ, ◌+◌, ◌<◌, ◌≤◌, String, ◌≡◌, ◌≢◌, inl, inr, Bool, true, false, some, arith, number_test,
}
use pgoutbox.Db.Topics.{GetTopicForUpdateRow, get_topic_for_update}
use pgoutbox.World.{World, Result, ok, err, exclusive_lease_held, exclusive_lease_required}
use pgoutbox.World.Rules.{HasLost}
use pgoutbox.Outbox.{Outbox}
use pgoutbox.Outbox.Access.{check_row}
use pgoutbox.Outbox.Lease.{held_by_other, try_acquire_topic_lease}
use pgoutbox.Outbox.Lease.Row.{lease_row}
use pgoutbox.Outbox.Lease.Granted.{Tries, failed, busy, granted, try_acquire-Tries}

-- A lease row names at most one holder, so two instances never pass the check on a topic that has an
-- exclusive consumer, at whatever times their clocks show.
pub access_exclusive :
    (a b now_a now_b : ℕ) (row : GetTopicForUpdateRow) (holder : ℕ)
    → row.exclusive_consumer_id ≡ some holder
    → check_row a now_a (some row) ≡ ok tt
    → check_row b now_b (some row) ≡ ok tt
    → a ≡ b
unfolding check_row
access_exclusive a b now_a now_b row holder h pa pb = ground (arith, h)

module _ (me t expires : ℕ) where
  holder_passes : t < expires → check_row me t (some (lease_row me expires)) ≡ ok tt
  unfolding check_row
  holder_passes h = ground arith

  others_held :
      (b : ℕ)
      → t < expires
      → b ≢ me
      → check_row b t (some (lease_row me expires)) ≡ err exclusive_lease_held
  unfolding check_row
  others_held b h other = ground (arith, other)

  pub lapsed_required :
      (b : ℕ)
      → expires ≤ t
      → check_row b t (some (lease_row me expires)) ≡ err exclusive_lease_required
  unfolding check_row
  lapsed_required b h = ground arith

  others_blocked : (b : ℕ) → t < expires → b ≢ me → held_by_other b t (lease_row me expires) ≡ true
  unfolding held_by_other
  others_blocked b h other = ground (arith, other)

module _ (o : Outbox) (topic : String) (w : World) where
  abbrev result : Result Bool
  result = (try_acquire_topic_lease o topic w).0

  abbrev after : World
  after = (try_acquire_topic_lease o topic w).1

  granted_lease :
      result ≡ ok true
      → get_topic_for_update topic after.db
        ≡ some (lease_row o.instance_id (w.now + w.exclusive_lease_duration))
  granted_lease won = by_end won (try_acquire-Tries o topic w).at
    where
      by_end :
          {r : Result Bool} {w' : World}
          → r ≡ ok true
          → Tries o topic w r w'
          → get_topic_for_update topic w'.db
            ≡ some (lease_row o.instance_id (w.now + w.exclusive_lease_duration))
      by_end won (failed e bad _) = cc
      by_end won (busy bad _ _) = cc
      by_end won (granted _ _ _ row) = row

  -- After tryAcquireTopicLease has granted the lease, until one lease duration has passed the holder
  -- passes the access check and every other instance is told that the lease is held; from then on,
  -- with no further renewal, every instance is told to acquire the lease first.
  pub acquire_granted :
      result ≡ ok true
      → (t : ℕ)
      → (t < w.now + w.exclusive_lease_duration
          → (check_row o.instance_id t (get_topic_for_update topic after.db) ≡ ok tt)
            × ((b : ℕ)
                → b ≢ o.instance_id
                → check_row b t (get_topic_for_update topic after.db) ≡ err exclusive_lease_held))
        × (w.now + w.exclusive_lease_duration ≤ t
            → (b : ℕ)
            → check_row b t (get_topic_for_update topic after.db) ≡ err exclusive_lease_required)
  acquire_granted won t = rw (granted_lease won) (
    (λ soon. (
      holder_passes o.instance_id t _ soon,
      λ b other. others_held o.instance_id t _ b soon other,
    )),
    λ late b. lapsed_required o.instance_id t _ b late,
  )

  -- An attempt that reports a busy lease, or that fails with no answer of the database lost, leaves
  -- the database as it was, and a busy lease is one that the access check calls held.
  pub acquire_refused :
      result ≢ ok true
      → ¬ HasLost w.answers
      → (after.db ≡ w.db)
        × (result ≡ ok false
            → check_row o.instance_id w.now (get_topic_for_update topic w.db)
              ≡ err exclusive_lease_held)
  acquire_refused lost_out sure = by_end lost_out (try_acquire-Tries o topic w).at
    where
      by_end :
          {r : Result Bool} {w' : World}
          → r ≢ ok true
          → Tries o topic w r w'
          → (w'.db ≡ w.db)
            × (r ≡ ok false
                → check_row o.instance_id w.now (get_topic_for_update topic w.db)
                  ≡ err exclusive_lease_held)
      by_end lost_out (failed e bad (inl same)) = (same, λ f. cc)
      by_end lost_out (failed e bad (inr unsure)) = absurd (sure unsure)
      by_end lost_out (busy _ same held) = (same, λ f. held)
      by_end lost_out (granted _ won _ _) = absurd (lost_out won)

-- After an instance was granted the lease, and as long as the row of the topic and the session that
-- it defers to read as the grant left them, no other instance is granted it before one lease duration
-- has passed, whatever the database answers that instance.
pub acquire_excludes :
    (a b : Outbox) (topic : String) (w v : World)
    → (try_acquire_topic_lease a topic w).0 ≡ ok true
    → get_topic_for_update topic v.db
      ≡ get_topic_for_update topic (try_acquire_topic_lease a topic w).1.db
    → v.now < w.now + w.exclusive_lease_duration
    → b.instance_id ≢ a.instance_id
    → (try_acquire_topic_lease b topic v).0 ≢ ok true
acquire_excludes a b topic w v won same soon other = by_end (try_acquire-Tries b topic v).at
  where
    row :
        get_topic_for_update topic v.db
        ≡ some (lease_row a.instance_id (w.now + w.exclusive_lease_duration))
    row = same ∙ granted_lease a topic w won

    by_end : {r : Result Bool} {v' : World} → Tries b topic v r v' → r ≢ ok true
    by_end (failed e bad _) = λ got. cc
    by_end (busy bad _ _) = λ got. cc
    by_end (granted unheld _ _ _) = λ got.
        let blocked : held_by_other b.instance_id v.now
              (lease_row a.instance_id (w.now + w.exclusive_lease_duration))
            ≡ true =
          others_blocked a.instance_id v.now _ b.instance_id soon other in
        let unblocked = unheld _ row in cc
