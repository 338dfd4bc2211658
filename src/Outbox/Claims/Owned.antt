-- ===== src/Outbox/Claims/Owned.antt =====
-- What a claim wins is held by the instance afterwards.
use mathlib.Core.List.{not-mem-nil, mem-append, Mem-prop}
use mathlib.Core.Logic.Or
use pgoutbox.Prelude.{
  ◌⊎◌, ℕ, ◌-◌, ◌+◌, String, ◌≡◌, refl, ◌||◌, inl, inr, List, [], ◌++◌, Mem, length, leb, ◌==◌,
  number_test,
}
use pgoutbox.Db.{Db}
use pgoutbox.Db.Sessions.{CountLiveConsumerSessionsRow}
use pgoutbox.World.{
  World, Answer, works, fails, lost, answer, rest, Result, ok, err, run_statement, M, ◌>>=◌,
  proceed, pool_returning, catch, pure, handle, Error,
}
use pgoutbox.World.Rules.{Gives, nest_rule, gets_rule, pure_rule, if_rule, pool_query_rule}
use pgoutbox.Outbox.{Outbox}
use pgoutbox.Outbox.Claims.{
  ClaimClass, claim_unleased, claim_stale, claim_budget, claim_class_share, claim_counted,
  claim_topics, first_of,
}
use pgoutbox.Outbox.Claims.Held.{Holds, Holds-inserts, Holds-claims}

module _ (o : Outbox) where
  -- The call has won `won`: the instance holds that, and what it held in `db`.
  pub record Owns (db : Db) (r : Result (List String)) (v : World) : Type 0 where
    pub won : List String
    pub fine : r ≡ ok won
    pub ours : (t : String) → Mem t won → Holds o.instance_id t v.db
    pub kept : (t : String) → Holds o.instance_id t db → Holds o.instance_id t v.db

  Owns-none : (db : Db) (v : World) → v.db ≡ db → Owns db (ok []) v
  Owns-none db v same = record {
    won = [];
    fine = refl;
    ours = λ t m. absurd (not-mem-nil m);
    kept = λ t m. rw same m;
  }

  -- A claim on the pool, of which an error wins nothing.
  claiming_rule :
      (f : Db → Db × List String) (w : World)
      → ((t : String)
          → (Holds o.instance_id t w.db → Holds o.instance_id t (f w.db).0)
            × (Mem t (f w.db).1 → Holds o.instance_id t (f w.db).0))
      → Gives (catch (pool_returning f) (λ _. pure [])) w (Owns w.db)
  unfolding catch pool_returning pure
  claiming_rule f w claims = record { at = by_answer (answer w) }
    where
      by_answer :
          (x : Answer)
          → let (r, v) =
              run_statement
                (f w.db).1
                x
                (record (rest w) { db = (f w.db).0 })
                (record (rest w) { db = (f w.db).0 })
                (rest w) in
            Owns w.db (handle r (λ _. pure []) v).0 (handle r (λ _. pure []) v).1
      by_answer works = record {
        won = (f w.db).1;
        fine = refl;
        ours = λ t. (claims t).1;
        kept = λ t. (claims t).0;
      }
      by_answer (fails c) = Owns-none w.db (rest w) refl
      by_answer (lost c) = record {
        won = [];
        fine = refl;
        ours = λ t m. absurd (not-mem-nil m);
        kept = λ t. (claims t).0;
      }

  claim_unleased-Owns :
      (budget : ℕ) (topics : List String) (w : World)
      → Gives (claim_unleased o budget topics) w (Owns w.db)
  unfolding claim_unleased
  claim_unleased-Owns budget topics w =
      if_rule (length topics == 0) (λ _. pure_rule [] (Owns-none w.db w refl))
        (λ _. gets_rule _ _ (
          claiming_rule _ w
            (λ t. Holds-inserts w.db_now o.instance_id t (first_of budget topics) w.db)))

  claim_stale-Owns :
      (budget : ℕ) (topics : List String) (w : World)
      → Gives (claim_stale o budget topics) w (Owns w.db)
  unfolding claim_stale
  claim_stale-Owns budget topics w =
      if_rule (leb budget 0 || length topics == 0) (λ _. pure_rule [] (Owns-none w.db w refl))
        (λ _. gets_rule _ _ (
          gets_rule _ _ (
            gets_rule _ _ (
              claiming_rule _ w
                (λ t. Holds-claims w.db_now o.instance_id t _ _ (first_of budget topics) w.db)))))

  -- A claim and a block that goes on after it.
  pub claimed_rule :
      {B : Type 0} {Q : Result B → World → Type 0} {w : World} (db : Db) (m : M (List String))
      (k : List String → M B)
      → Gives m w (Owns db)
      → ((v : World) (won : List String)
          → ((t : String) → Mem t won → Holds o.instance_id t v.db)
          → ((t : String) → Holds o.instance_id t db → Holds o.instance_id t v.db)
          → Gives (k won) v Q)
      → Gives (m >>= k) w Q
  claimed_rule {B} {Q} {w} db m k g later =
      nest_rule m k (record { at = by_result (m w).0 (m w).1 g.at })
    where
      by_result :
          (r : Result (List String)) (v : World)
          → Owns db r v
          → Q (proceed r k v).0 (proceed r k v).1
      by_result r v own = rw own.fine ((later v own.won own.ours own.kept).at)

  -- Two claims, one after the other.
  both_rule :
      (m : M (List String)) (n : List String → M (List String)) (w : World)
      → Gives m w (Owns w.db)
      → ((won : List String) (v : World) → Gives (n won) v (Owns v.db))
      → Gives (m >>= (λ won. n won >>= (λ more. pure (won ++ more)))) w (Owns w.db)
  both_rule m n w g h = claimed_rule w.db m _ g (λ v won ours kept.
      claimed_rule v.db (n won) _ (h won v) (λ u more ours_too kept_too. pure_rule _ (record {
        won = won ++ more;
        fine = refl;
        ours = λ t k. Or.elim Mem-prop (mem-append.0 k) (λ i. kept_too t (ours t i)) (ours_too t);
        kept = λ t k. kept_too t (kept t k);
      })))

  -- A block whose error wins nothing.
  recovered-Owns :
      (m : M (List String)) (w : World)
      → Gives m w (λ r v. Owns w.db r v ⊎ ((v.db ≡ w.db) × ((e : Error) × (r ≡ err e))))
      → Gives (catch m (λ _. pure [])) w (Owns w.db)
  unfolding catch pure
  recovered-Owns m w g = record { at = by_result (m w).0 (m w).1 g.at }
    where
      by_result :
          (r : Result (List String)) (v : World)
          → Owns w.db r v ⊎ ((v.db ≡ w.db) × ((e : Error) × (r ≡ err e)))
          → Owns w.db (handle r (λ _. pure []) v).0 (handle r (λ _. pure []) v).1
      by_result r v (inl own) =
          rw own.fine (record { won = own.won; fine = refl; ours = own.ours; kept = own.kept })
      by_result r v (inr (same, (e, failed))) = rw failed (Owns-none w.db v same)

module _ (shuffle : List String → List String) (o : Outbox) where
  claim_class_share-Owns :
      (class : ClaimClass) (instances : ℕ) (w : World)
      → Gives (claim_class_share shuffle o class instances) w (Owns o w.db)
  unfolding claim_class_share
  claim_class_share-Owns class instances w =
      if_rule (length class.unleased + length class.stale == 0)
        (λ _. pure_rule [] (Owns-none o w.db w refl))
        (λ _.
          both_rule o _ _ w
            (claim_unleased-Owns o (claim_budget class instances) (shuffle class.unleased) w)
            (λ won v.
              claim_stale-Owns o (claim_budget class instances - length won) (shuffle class.stale)
                v))

  claim_counted-Owns :
      (explicit dflt : ClaimClass) (counts : CountLiveConsumerSessionsRow) (w : World)
      → Gives (claim_counted shuffle o explicit dflt counts) w (Owns o w.db)
  unfolding claim_counted
  claim_counted-Owns explicit dflt counts w =
      both_rule o _ _ w (claim_class_share-Owns explicit counts.live w)
        (λ won v. claim_class_share-Owns dflt counts.default_maintainers v)

  -- claimTopics never fails.
  pub claim_topics-Owns :
      (explicit dflt : ClaimClass) (w : World)
      → Gives (claim_topics shuffle o explicit dflt) w (Owns o w.db)
  unfolding claim_topics
  claim_topics-Owns explicit dflt w =
      if_rule
        (length explicit.unleased + length explicit.stale + length dflt.unleased + length dflt.stale
          == 0)
        (λ _. pure_rule [] (Owns-none o w.db w refl))
        (λ _. recovered-Owns o _ w (
          gets_rule _ _ (
            pool_query_rule _ _ (λ c. inr (refl, (_, refl)))
              (record { at = inl (claim_counted-Owns explicit dflt _ (rest w)).at }))))
