-- ===== src/Db/Listing/Least.antt =====
-- The least of the topics under a collation.
use mathlib.Core.List.{mem-cons, not-mem-nil}
use mathlib.Core.Logic.Or
use native.Mathlib.Bridge.{le_prop}
use mathlib.Core.Option
use mathlib.Core.Bool.{Bool-set}
use pgoutbox.Prelude.{
  ◌≤◌, ◌<◌, String, ◌≡◌, refl, sym, Bool, true, false, Bool-cases, inl, inr, Option, none, some,
  List, [], ◌∷◌, Mem, length, arith,
}
use pgoutbox.Sql.{select}
use pgoutbox.Db.Listing.{least_of, least}

-- A collation orders the topics strictly and totally.
pub record IsCollation (less : String → String → Bool) : Type 0 where
  pub irreflexive : (a : String) → less a a ≡ false
  pub transitive : (a b c : String) → less a b ≡ true → less b c ≡ true → less a c ≡ true
  pub total : (a b : String) → less a b ≡ false → less b a ≡ false → a ≡ b

module _ (p q : String → Bool) (below : (u : String) → p u ≡ true → q u ≡ true) where
  length-select-le : (topics : List String) → length (select p topics) ≤ length (select q topics)
  length-select-le [] = omega arith
  length-select-le (u ∷ topics) = ground (arith, length-select-le topics, below u)

  -- A narrower test that drops an element gives a shorter list.
  pub length-select-lt :
      (z : String) (topics : List String)
      → Mem z topics
      → q z ≡ true
      → p z ≡ false
      → length (select p topics) < length (select q topics)
  length-select-lt z [] m in_q out = absurd (not-mem-nil m)
  length-select-lt z (u ∷ topics) m in_q out =
      Or.elim le_prop (mem-cons.0 m)
        (λ e. let le = length-select-le topics in rw (← e) (rw (in_q, out) (omega arith)))
        (λ k. ground (arith, length-select-lt z topics k in_q out, below u))

module _ (less : String → String → Bool) (collation : IsCollation less) where
  open collation use {irreflexive, transitive, total}

  not_both : (a b : String) → less a b ≡ true → less b a ≡ false
  not_both a b lt = elim (Bool-cases (less b a)) [
    | inl gt ↦ (let same = transitive a b a lt gt in let never = irreflexive a in cc)
    | inr ge ↦ ge
  ]

  pub record Least (t : String) (topics : List String) : Type 0 where
    pub member : Mem t topics
    pub lowest : (u : String) → Mem u topics → less u t ≡ false

  -- The least of a topic and of others is one of them, and below none.
  data Picked (x u t : String) : Type 0 where
    old : less u x ≡ true → u ≡ t → Picked x u t
    new : less u x ≡ false → x ≡ t → Picked x u t

  least_of-Picked : (x u t : String) → least_of less x (some u) ≡ some t → Picked x u t
  least_of-Picked x u t e = elim (Bool-cases (less u x)) [
    | inl lt ↦ old lt (Option.some-injective _ _ (rw lt at e))
    | inr ge ↦ new ge (Option.some-injective _ _ (rw ge at e))
  ]

  pub least-none : (topics : List String) → least less topics ≡ none → topics ≡ []
  unfolding least
  least-none [] e = refl
  least-none (t ∷ topics) e = absurd (by_rest (least less topics) e)
    where
      by_rest : (o : Option String) → ¬ (least_of less t o ≡ none)
      by_rest none e = cc
      by_rest (some u) e = elim (Bool-cases (less u t)) [
        | inl lt ↦ (let bad : some u ≡ none = (rw lt at e) in cc)
        | inr ge ↦ (let bad : some t ≡ none = (rw ge at e) in cc)
      ]

  above : (x u y : String) → less y u ≡ false → less u x ≡ false → less y x ≡ false
  above x u y ge_u ge_x = elim (Bool-cases (less y x)) [
    | inl lt ↦ elim (Bool-cases (less u y)) [
      | inl up ↦ (let bad = transitive u y x up lt in cc)
      | inr flat ↦ (let same : u ≡ y = total u y flat ge_u in cc)
    ]
    | inr ge ↦ ge
  ]

  Least-picked :
      (x u t : String) (topics : List String) → Least u topics → Picked x u t → Least t (x ∷ topics)
  Least-picked x u t topics l (old lt e) = record {
    member = mem-cons.1 (Or.inr (rw (← e) l.member));
    lowest = λ y m.
        Or.elim (Bool-set _ _) (mem-cons.0 m) (λ q. rw q (rw (← e) (not_both u x lt)))
          (λ k. rw (← e) (l.lowest y k));
  }
  Least-picked x u t topics l (new ge e) = record {
    member = mem-cons.1 (Or.inl (sym e));
    lowest = λ y m.
        Or.elim (Bool-set _ _) (mem-cons.0 m) (λ q. rw q (rw (← e) (irreflexive x)))
          (λ k. rw (← e) (above x u y (l.lowest y k) ge));
  }

  Least-single : (x : String) → Least x (x ∷ [])
  Least-single x = record {
    member = mem-cons.1 (Or.inl refl);
    lowest = λ y m.
        Or.elim (Bool-set _ _) (mem-cons.0 m) (λ q. rw q (irreflexive x))
          (λ k. absurd (not-mem-nil k));
  }

  Least-cons :
      (x t : String) (topics : List String) (o : Option String)
      → (o ≡ none → topics ≡ [])
      → ((u : String) → o ≡ some u → Least u topics)
      → least_of less x o ≡ some t
      → Least t (x ∷ topics)
  Least-cons x t topics none empty rest e =
      let same : x ≡ t = Option.some-injective _ _ e in
      rw (← same) (rw (empty refl) (Least-single x))
  Least-cons x t topics (some u) empty rest e =
      Least-picked x u t topics (rest u refl) (least_of-Picked x u t e)

  pub least-Least :
      (t : String) (topics : List String) → least less topics ≡ some t → Least t topics
  unfolding least
  least-Least t [] e = cc
  least-Least t (x ∷ topics) e =
      Least-cons x t topics (least less topics) (least-none topics) (λ u. least-Least u topics) e
