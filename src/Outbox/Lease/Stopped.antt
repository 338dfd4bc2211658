-- ===== src/Outbox/Lease/Stopped.antt =====
-- After ReleaseTopic the topic has no lease watcher.
use pgoutbox.Prelude.{
  String, ◌≡◌, ◌≢◌, refl, sym, ◌∙◌, ap, Bool, true, false, List, [], ◌∷◌, elem, ◌==◌, text_test,
  ==-false, ne_of_false, Bool-cases, inl, inr,
}
use pgoutbox.Db.{Db}
use pgoutbox.World.{
  World, Answer, works, fails, lost, pool_exec, answer, run_statement, ◌>>=◌, rest,
}
use pgoutbox.World.Rules.{Gives, catch_pool_exec_rule, gets_rule, logged_rule, if_rule}
use pgoutbox.Outbox.{Outbox}
use pgoutbox.Outbox.Lease.{
  expire_exclusive_lease_after_grace, expire_lease_if_watcher_orphaned, release_topic, without,
}
use pgoutbox.Outbox.Lease.Release.{stop_watcher_rule, give_up_rule}

pool_exec-watchers :
    (f : Db → Db) (w : World) → Gives (pool_exec f) w (λ _ v. v.watchers ≡ w.watchers)
unfolding pool_exec
pool_exec-watchers f w = record { at = by_answer (answer w) }
  where
    by_answer :
        (x : Answer)
        → let r = rest w in
          (run_statement tt x (record r { db = f w.db }) (record r { db = f w.db }) r).1.watchers
          ≡ w.watchers
    by_answer works = refl
    by_answer (fails _) = refl
    by_answer (lost _) = refl

module _ (o : Outbox) (topic : String) where
  expire-watchers :
      (stopped : Bool) (w : World)
      → (expire_lease_if_watcher_orphaned o topic stopped w).1.watchers ≡ w.watchers
  unfolding expire_lease_if_watcher_orphaned expire_exclusive_lease_after_grace ◌>>=◌
  expire-watchers true w = (logged_rule _ (pool_exec-watchers _ w)).at
  expire-watchers false w = refl

  release_topic-watchers :
      (w : World)
      → topic ≢ ""
      → Gives (release_topic o topic) w (λ _ v. v.watchers ≡ without topic w.watchers)
  unfolding release_topic
  release_topic-watchers w named =
      if_rule (topic == "") (λ e. absurd (named ((text_test.same_iff topic "").0 e)))
        (λ _. stop_watcher_rule o topic _ (
          gets_rule _ _ (
            catch_pool_exec_rule _ _ refl
              (λ c.
                give_up_rule o topic (elem topic w.watchers) _
                  (expire-watchers (elem topic w.watchers) _))
              (λ c.
                give_up_rule o topic (elem topic w.watchers) _
                  (expire-watchers (elem topic w.watchers) _)))))

  elem-without : (ws : List String) → elem topic (without topic ws) ≡ false
  unfolding elem
  elem-without [] = refl
  elem-without (x ∷ ws) = elim (Bool-cases (x == topic)) [
    | inl p ↦ rw p (elem-without ws)
    | inr p ↦ rw p (rw (==-false topic x (λ e. ne_of_false x topic p (sym e))) (elem-without ws))
  ]

  -- No watcher of the topic runs.
  pub release_topic-unwatched :
      (w : World) → topic ≢ "" → elem topic (release_topic o topic w).1.watchers ≡ false
  release_topic-unwatched w named =
      ap (elem topic) (release_topic-watchers w named).at ∙ elem-without w.watchers
