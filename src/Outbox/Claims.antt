-- ===== src/Outbox/Claims.antt =====
-- claimTopics and claimClassShare of outbox.go: how an instance claims maintenance leases.
pub mod Share
pub mod Spared
pub mod Held
pub mod Owned
use pgoutbox.Prelude.{
  ℕ, ◌+◌, ◌-◌, ◌/◌, min, max, String, Bool, ◌||◌, List, [], ◌∷◌, ◌++◌, length, take, ltb, leb, ◌==◌,
  number_test, if◌then◌else◌,
}
use pgoutbox.Db.{Db}
use pgoutbox.Db.Sessions.{CountLiveConsumerSessionsRow, count_live_consumer_sessions}
use pgoutbox.Db.Leases.{insert_maintenance_leases, claim_maintenance_leases}
use pgoutbox.World.{M, pure, gets, ◌>>=◌, catch, pool_query, pool_returning}
use pgoutbox.Outbox.{Outbox}

-- claimClass
pub record ClaimClass : Type 0 where
  pub candidates : ℕ
  pub held : ℕ
  pub unleased : List String
  pub stale : List String

-- `instances`, raised to 1.
abbrev pub at_least_one : ℕ → ℕ
at_least_one instances = max instances 1

-- The budget of claimClassShare. Where Go's difference is negative, max makes it 1, as here where it
-- is zero.
unfoldable pub claim_budget : ClaimClass → ℕ → ℕ
claim_budget class instances =
    max ((class.candidates + at_least_one instances - 1) / at_least_one instances - class.held) 1

-- `topics[:min(budget, len(topics))]`
abbrev pub first_of : ℕ → List String → List String
first_of budget topics = take (min budget (length topics)) topics

unfoldable pub claim_unleased : Outbox → ℕ → List String → M (List String)
unfolding pool_returning
claim_unleased o budget unleased = if length unleased == 0 then pure [] else do
  db_now ← gets (λ w. w.db_now)
  catch (pool_returning (insert_maintenance_leases db_now (first_of budget unleased) o.instance_id))
      (λ _. pure [])

unfoldable pub claim_stale : Outbox → ℕ → List String → M (List String)
unfolding pool_returning
claim_stale o budget stale = if leb budget 0 || length stale == 0 then pure [] else do
  db_now ← gets (λ w. w.db_now)
  locked ← gets (λ w. w.locked_leases)
  cutoff ← gets (λ w. w.now - w.maintenance_lease_timeout)
  catch
      (pool_returning
        (claim_maintenance_leases locked db_now cutoff (first_of budget stale) o.instance_id))
      (λ _. pure [])

-- `shuffle` is rand.Shuffle.
module _ (shuffle : List String → List String) where
  -- claimClassShare
  unfoldable pub claim_class_share : Outbox → ClaimClass → ℕ → M (List String)
  unfolding claim_unleased claim_stale claim_budget
  claim_class_share o class instances =
      if length class.unleased + length class.stale == 0 then pure [] else do
        won ← claim_unleased o (claim_budget class instances) (shuffle class.unleased)
        more ← claim_stale o (claim_budget class instances - length won) (shuffle class.stale)
        pure (won ++ more)

  unfoldable pub claim_counted :
      Outbox → ClaimClass → ClaimClass → CountLiveConsumerSessionsRow → M (List String)
  unfolding claim_class_share
  claim_counted o explicit dflt counts = do
    won ← claim_class_share o explicit counts.live
    more ← claim_class_share o dflt counts.default_maintainers
    pure (won ++ more)

  -- claimTopics: an error of the count is logged, and claims nothing.
  unfoldable pub claim_topics : Outbox → ClaimClass → ClaimClass → M (List String)
  unfolding claim_counted pool_query
  claim_topics o explicit dflt =
      if length explicit.unleased + length explicit.stale + length dflt.unleased + length dflt.stale
        == 0
      then pure []
      else catch
          (do
            now ← gets (λ w. w.db_now)
            counts ← pool_query (count_live_consumer_sessions now)
            claim_counted o explicit dflt counts)
          (λ _. pure [])
