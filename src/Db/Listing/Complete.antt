-- ===== src/Db/Listing/Complete.antt =====
-- What the loose index scan lists.
use mathlib.Core.List.{mem-filter, mem-cons, Mem-prop, Pairwise}
use mathlib.Core.Logic.Or
use pgoutbox.Prelude.{
  ℕ, zero, suc, ◌≤◌, String, ◌≡◌, ◌↔◌, refl, ap, subst, Bool, true, Bool-cases, inl, inr, Option,
  none, some, List, [], ◌∷◌, map, Mem, length, arith, is_true,
}
use pgoutbox.Sql.{select}
use pgoutbox.Db.{Db, Message}
use pgoutbox.Db.Listing.{least, loose_scan, get_topics_with_messages}
use pgoutbox.Db.Listing.Least.{length-select-lt, IsCollation, Least, least-none, least-Least}

module _ (less : String → String → Bool) (collation : IsCollation less) where
  open collation use {irreflexive, transitive, total}

  module _ (topics : List String) where
    -- The topics that a test leaves, where what is above one of them is one of them too.
    record Upper (low : String → Bool) : Type 0 where
      upward : (u v : String) → low u ≡ true → less u v ≡ true → low v ≡ true

    mem-select :
        (low : String → Bool) (t : String)
        → Mem t (select low topics) ↔ (Mem t topics × (low t ≡ true))
    mem-select low t = mem-filter (λ u. is_true (low u))

    Upper-above : (t : String) → Upper (λ u. less t u)
    Upper-above t = record { upward = λ u v low lt. transitive t u v low lt }

    -- From a topic that the test leaves on, fewer are left.
    fewer :
        (n : ℕ) (low : String → Bool) (x : String)
        → Upper low
        → length (select low topics) ≤ suc n
        → Mem x (select low topics)
        → length (select (λ u. less x u) topics) ≤ n
    fewer n low x up few m =
        let (stored, in_low) = (mem-select low x).0 m in
        let lt =
          length-select-lt (λ u. less x u) low (λ u gt. up.upward x u in_low gt) x topics stored
            in_low (irreflexive x) in
        omega arith

    scan_step :
        (n : ℕ) (low : String → Bool) (t : String) (o : Option String)
        → Upper low
        → least less (select low topics) ≡ o
        → ((x : String)
            → Mem x (select low topics)
            → Mem t (loose_scan less n (least less (select (λ u. less x u) topics)) topics)
              ↔ Mem t (select (λ u. less x u) topics))
        → Mem t (loose_scan less (suc n) o topics) ↔ Mem t (select low topics)
    unfolding loose_scan
    scan_step n low t none up e ih =
        rw (least-none less collation (select low topics) e) ((λ m. m), (λ m. m))
    scan_step n low t (some x) up e ih = (
      (λ m.
          Or.elim Mem-prop (mem-cons.0 m) (λ q. rw q l.member)
            (λ k.
              let (stored, gt) = (mem-select (λ u. less x u) t).0 ((ih x l.member).0 k) in
              (mem-select low t).1 (stored, up.upward x t in_low gt))),
      (λ m. elim (Bool-cases (less x t)) [
        | inl gt ↦ mem-cons.1 (
            Or.inr (
              (ih x l.member).1
                ((mem-select (λ u. less x u) t).1 (((mem-select low t).0 m).0, gt))))
        | inr le ↦ mem-cons.1 (Or.inl (total t x (l.lowest t m) le))
      ]),
    )
      where
        l : Least less collation x (select low topics)
        l = least-Least less collation x (select low topics) e

        in_low : low x ≡ true
        in_low = ((mem-select low x).0 l.member).1

    -- The scan from the least topic lists them.
    mem-loose_scan :
        (n : ℕ) (low : String → Bool) (t : String)
        → Upper low
        → length (select low topics) ≤ n
        → Mem t (loose_scan less n (least less (select low topics)) topics)
          ↔ Mem t (select low topics)
    unfolding loose_scan
    mem-loose_scan zero low t up few =
        rw (empty_of_none (select low topics) few) ((λ m. m), (λ m. m))
      where
        empty_of_none : (us : List String) → length us ≤ 0 → us ≡ []
        empty_of_none [] le = refl
        empty_of_none (u ∷ us) le = absurd (by_length le)
          where
            by_length : ¬ (suc (length us) ≤ 0)
            by_length le = omega arith
    mem-loose_scan (suc n) low t up few =
        scan_step n low t _ up refl
          (λ x m. mem-loose_scan n (λ u. less x u) t (Upper-above x) (fewer n low x up few m))

    -- The listing is strictly ascending.
    loose_scan-Pairwise :
        (n : ℕ) (low : String → Bool)
        → Upper low
        → length (select low topics) ≤ n
        → Pairwise
            (λ a b. less a b ≡ true)
            (loose_scan less n (least less (select low topics)) topics)
    unfolding loose_scan
    loose_scan-Pairwise zero low up few = Pairwise.nil
    loose_scan-Pairwise (suc n) low up few =
        by_least (least less (select low topics)) refl
          (λ x m. loose_scan-Pairwise n (λ u. less x u) (Upper-above x) (fewer n low x up few m))
      where
        by_least :
            (o : Option String)
            → least less (select low topics) ≡ o
            → ((x : String)
                → Mem x (select low topics)
                → Pairwise
                    (λ a b. less a b ≡ true)
                    (loose_scan less n (least less (select (λ u. less x u) topics)) topics))
            → Pairwise (λ a b. less a b ≡ true) (loose_scan less (suc n) o topics)
        by_least none e ih = Pairwise.nil
        by_least (some x) e ih =
            let m = (least-Least less collation x (select low topics) e).member in
            Pairwise.cons
              (λ t k.
                ((mem-select (λ u. less x u) t).0 (
                  (mem-loose_scan n (λ u. less x u) t (Upper-above x) (fewer n low x up few m)).0
                    k)).1)
              (ih x m)

  select-all : (topics : List String) → select (λ _. true) topics ≡ topics
  select-all [] = refl
  select-all (t ∷ topics) = ap (λ ts. t ∷ ts) (select-all topics)

  -- Under a strict total order, the loose index scan lists exactly the topics that have a message, each
  -- once and in ascending order.
  pub topics_with_messages_exact :
      (db : Db)
      → ((topic : String)
          → Mem topic (get_topics_with_messages less db)
            ↔ Mem topic (map (λ (m : Message). m.topic) db.messages))
        × Pairwise (λ a b. less a b ≡ true) (get_topics_with_messages less db)
  unfolding get_topics_with_messages
  topics_with_messages_exact db = by_topics (map (λ (m : Message). m.topic) db.messages)
    where
      by_topics :
          (topics : List String)
          → ((topic : String)
              → Mem topic (loose_scan less (length topics) (least less topics) topics)
                ↔ Mem topic topics)
            × Pairwise
                (λ a b. less a b ≡ true)
                (loose_scan less (length topics) (least less topics) topics)
      by_topics topics =
          let everything = select-all topics in
          let up : Upper topics (λ _. true) = record { upward = λ u v _ _. refl } in
          (
            (λ t.
                subst
                  (λ us. Mem t (loose_scan less (length topics) (least less us) topics) ↔ Mem t us)
                  everything
                  (mem-loose_scan topics (length topics) (λ _. true) t up
                    (rw everything (omega arith)))),
            subst
                (λ us.
                  Pairwise (λ a b. less a b ≡ true)
                    (loose_scan less (length topics) (least less us) topics))
                everything
                (loose_scan-Pairwise topics (length topics) (λ _. true) up
                  (rw everything (omega arith))),
          )
