-- ===== src/Outbox/Claims/Share.antt =====
-- The fair share of a class, and what is claimed for it.
use pgoutbox.Prelude.{
  ℕ, ◌+◌, ◌-◌, ◌*◌, ◌/◌, ◌≤◌, ◌<◌, ◌≡◌, ◌⊎◌, inl, inr, max, arith, ltb, ltb→lt, Bool-cases,
  number_test,
}
use native.Mathlib.Nat.{div-add-mod, mod-lt, mul-le-mul_left, le_trans}
use pgoutbox.Outbox.Claims.{ClaimClass, claim_budget, at_least_one}

ceiling_covers : (c k : ℕ) → 0 < k → c ≤ k * ((c + k - 1) / k)
ceiling_covers c k some_k =
    let whole = div-add-mod (c + k - 1) k in let small = mod-lt (c + k - 1) some_k in omega arith

-- If each of the live instances, at least one, held its share and claimed its budget, every candidate
-- of the class would have a holder; and an instance goes over the share, rounded up, only by the one
-- claim that it always tries.
pub claim_budget_covers :
    (class : ClaimClass) (instances : ℕ)
    → let k = at_least_one instances in
      let budget = claim_budget class instances in
      (class.candidates ≤ k * (class.held + budget))
      × (1 ≤ budget)
      × ((class.held + budget ≤ (class.candidates + k - 1) / k) ⊎ (budget ≡ 1))
unfolding claim_budget
claim_budget_covers class instances =
    let k = at_least_one instances in
    let q = (class.candidates + k - 1) / k in
    let enough : class.candidates ≤ k * q = ceiling_covers class.candidates k (omega arith) in
    let more = mul-le-mul_left k (q_le q class.held) in
    (le_trans enough more, omega arith, share q class.held)
  where
    q_le : (q held : ℕ) → q ≤ held + max (q - held) 1
    q_le q held = omega arith

    share : (q held : ℕ) → (held + max (q - held) 1 ≤ q) ⊎ (max (q - held) 1 ≡ 1)
    share q held = elim (Bool-cases (ltb held q)) [
      | inl under ↦ inl (let h = ltb→lt held q under in omega arith)
      | inr over ↦ inr (let h : q ≤ held = ground (arith, over) in omega arith)
    ]
