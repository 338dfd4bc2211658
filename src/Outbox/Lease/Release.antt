-- ===== src/Outbox/Lease/Release.antt =====
-- What ReleaseTopic leaves.
use pgoutbox.Prelude.{
  ◌∙◌, ℕ, ◌-◌, ◌≤◌, String, ◌≡◌, ◌≢◌, refl, inl, inr, Bool, true, false, some, [], arith, ◌==◌,
  number_test, text_test, ◌⊎◌, elem,
}
use pgoutbox.Db.{Db, Topic, second}
use pgoutbox.Db.Topics.{
  GetTopicForUpdateRow, get_topic_for_update, find_topic, renew_topic_exclusive_consumer,
}
use pgoutbox.World.{World, Result, ok, err, Error, M, ◌>>=◌, begin, commit, tx_exec, tx_query}
use pgoutbox.World.Rules.{
  Gives, catch_pool_exec_rule, gets_rule, raise_rule, if_rule, nest_rule, proceed_rule, logged-ok,
}
use pgoutbox.Outbox.{Outbox}
use pgoutbox.Outbox.Lease.{
  held_by_other, try_acquire_topic_lease, expire_exclusive_lease_after_grace,
  expire_lease_if_watcher_orphaned, release_topic, claim_row, take_lease, stop_watcher, without,
  give_up,
}
use pgoutbox.Outbox.Lease.Row.{lease_row, get_topic_for_update-insert}
use pgoutbox.Outbox.Lease.Lapse.{renew-holder, renew-other, orphaned-other}

module _ (o : Outbox) (topic : String) where
  expire_lease_if_watcher_orphaned-ok :
      (stopped : Bool) (w : World) → (expire_lease_if_watcher_orphaned o topic stopped w).0 ≡ ok tt
  unfolding expire_lease_if_watcher_orphaned expire_exclusive_lease_after_grace ◌>>=◌
  expire_lease_if_watcher_orphaned-ok true w = logged-ok _ w
  expire_lease_if_watcher_orphaned-ok false w = refl

  pub stop_watcher_rule :
      {B : Type 0} {Q : Result B → World → Type 0} {w : World} (k : Bool → M B)
      → Gives (k (elem topic w.watchers)) (record w { watchers = without topic w.watchers }) Q
      → Gives (stop_watcher topic >>= k) w Q
  unfolding stop_watcher ◌>>=◌
  stop_watcher_rule k g = record { at = g.at }

  -- Giving up keeps the error, and leaves what the orphan's expiry leaves.
  pub give_up_rule :
      {A : Type 0} {Q : Result A → World → Type 0} {w : World} (stopped : Bool) (e : Error)
      → Q (err e) (expire_lease_if_watcher_orphaned o topic stopped w).1
      → Gives (give_up o topic stopped e) w Q
  give_up_rule {Q = Q} {w} stopped e q = nest_rule _ _ (record {
    at =
        proceed_rule Q _ _ _
          (λ x bad. let fine = expire_lease_if_watcher_orphaned-ok stopped w in cc)
          (λ _ _. raise_rule e q);
  })

  module _ (w : World) where
    abbrev released_db : Db
    released_db = renew_topic_exclusive_consumer topic o.instance_id (some (w.now - second)) w.db

    -- How ReleaseTopic can end.
    pub data Releases (r : Result (Unit {0})) (w' : World) : Type 0 where
      no_topic : (e : Error) → topic ≡ "" → r ≡ err e → w' ≡ w → Releases r w'
      released :
          r ≡ ok tt → w'.db ≡ released_db → w'.watchers ≡ without topic w.watchers → Releases r w'
      gave_up :
          (e : Error) (v : World)
          → r ≡ err e
          → (v.db ≡ w.db) ⊎ (v.db ≡ released_db)
          → w' ≡ (expire_lease_if_watcher_orphaned o topic (elem topic w.watchers) v).1
          → Releases r w'

    pub release_topic-Releases : Gives (release_topic o topic) w Releases
    unfolding release_topic
    release_topic-Releases =
        if_rule (topic == "")
          (λ e. raise_rule _ (no_topic _ ((text_test.same_iff topic "").0 e) refl refl))
          (λ _. stop_watcher_rule _ (
            gets_rule _ _ (
              catch_pool_exec_rule _ _ (released refl refl refl)
                (λ c. give_up_rule (elem topic w.watchers) _ (gave_up _ _ refl (inl refl) refl))
                (λ c. give_up_rule (elem topic w.watchers) _ (gave_up _ _ refl (inr refl) refl)))))

    abbrev result : Result (Unit {0})
    result = (release_topic o topic w).0

    abbrev after : World
    after = (release_topic o topic w).1

    released_by_holder :
        (t : Topic)
        → find_topic topic w.db.topics ≡ some t
        → t.exclusive_consumer_id ≡ some o.instance_id
        → result ≡ ok tt
        → get_topic_for_update topic after.db ≡ some (lease_row o.instance_id (w.now - second))
    unfolding renew_topic_exclusive_consumer
    released_by_holder t there mine fine = by_end fine release_topic-Releases.at
      where
        by_end :
            {r : Result (Unit {0})} {w' : World}
            → r ≡ ok tt
            → Releases r w'
            → get_topic_for_update topic w'.db ≡ some (lease_row o.instance_id (w.now - second))
        by_end fine (no_topic e _ bad _) = cc
        by_end fine (released _ d _) = rw d (
            renew-holder topic o.instance_id (w.now - second) w.db t w.db.consumer_sessions there
              mine)
        by_end fine (gave_up e v bad _ _) = cc

lapsed_free :
    (holder b now expires : ℕ)
    → expires ≤ now
    → held_by_other b now (lease_row holder expires) ≡ false
unfolding held_by_other
lapsed_free holder b now expires h = ground arith

module _ (b : Outbox) (topic : String) (v : World) where
  -- With a database that answers, an attempt on a topic that has a row and no live lease of another
  -- instance is granted.
  pub acquire_progress :
      (row : GetTopicForUpdateRow)
      → get_topic_for_update topic v.db ≡ some row
      → held_by_other b.instance_id v.now row ≡ false
      → (try_acquire_topic_lease b topic (record v { answers = [] })).0 ≡ ok true
  unfolding try_acquire_topic_lease claim_row take_lease begin tx_exec tx_query commit ◌>>=◌
  acquire_progress row stored free =
      rw (get_topic_for_update-insert v.db_now topic v.db stored, try_acquire_topic_lease)
        (rw (free, claim_row) refl)

-- A holder's ReleaseTopic that succeeds lets another instance have the lease at once: as long as the
-- row of the topic reads as the release left it, an attempt by a clock that is not behind is granted,
-- if the database answers it.
pub release_frees :
    (o b : Outbox) (topic : String) (w v : World) (t : Topic)
    → find_topic topic w.db.topics ≡ some t
    → t.exclusive_consumer_id ≡ some o.instance_id
    → (release_topic o topic w).0 ≡ ok tt
    → get_topic_for_update topic v.db ≡ get_topic_for_update topic (release_topic o topic w).1.db
    → w.now ≤ v.now
    → (try_acquire_topic_lease b topic (record v { answers = [] })).0 ≡ ok true
release_frees o b topic w v t there mine fine same later =
    acquire_progress b topic v (lease_row o.instance_id (w.now - second))
      (same ∙ released_by_holder o topic w t there mine fine)
      (lapsed_free o.instance_id b.instance_id v.now (w.now - second) (omega arith))

-- ReleaseTopic by an instance that is not the holder leaves the topic's row as it was, on every path
-- and whatever the database answers.
pub release_spares_others :
    (o : Outbox) (topic : String) (w : World) (t : Topic)
    → find_topic topic w.db.topics ≡ some t
    → t.exclusive_consumer_id ≢ some o.instance_id
    → find_topic topic (release_topic o topic w).1.db.topics ≡ some t
release_spares_others o topic w t there other = by_end (release_topic-Releases o topic w).at
  where
    by_end :
        {r : Result (Unit {0})} {w' : World}
        → Releases o topic w r w'
        → find_topic topic w'.db.topics ≡ some t
    by_end (no_topic e _ _ same) = rw same there
    by_end (released _ d _) = rw d (renew-other topic o.instance_id _ w.db t there other)
    by_end (gave_up e v _ (inl d) same) =
        rw same (orphaned-other o topic (elem topic w.watchers) v t (rw d there) other)
    by_end (gave_up e v _ (inr d) same) = rw same (
        orphaned-other o topic (elem topic w.watchers) v t
          (rw d (renew-other topic o.instance_id _ w.db t there other)) other)
