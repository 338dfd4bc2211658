-- ===== src/Migrate/Names.antt =====
-- Which names the pattern accepts.
use pgoutbox.Prelude.{
  ℕ, zero, suc, ◌≤◌, ◌≡◌, ◌↔◌, refl, Bool, true, false, ◌&&◌, List, [], ◌∷◌, Mem, length, arith,
}
use mathlib.Core.List.{mem-cons, not-mem-nil, head-eq_of_cons-eq}
use mathlib.Core.Bool.{Bool-set}
use mathlib.Core.Logic.Or
use pgoutbox.Migrate.{is_first, is_later, matches_rest, matches_schema_name}

both : (a b : Bool) → (a && b) ≡ true → (a ≡ true) × (b ≡ true)
both true b h = (refl, h)
both false b h = cc

empty_ne {ℓ} : {A : Type ℓ} {c : A} {cs : List A} → [] ≡ c ∷ cs → ⊥
empty_ne e = cc

matches_rest_iff :
    (n : ℕ) (cs : List ℕ)
    → (matches_rest n cs ≡ true) ↔ ((length cs ≤ n) × ((c : ℕ) → Mem c cs → is_later c ≡ true))
unfolding matches_rest
matches_rest_iff n [] = ((λ h. (omega arith, λ c m. absurd (not-mem-nil m))), λ h. refl)
matches_rest_iff zero (c ∷ cs) = ((λ h. cc), λ h. absurd (omega (arith, h.0)))
matches_rest_iff (suc n) (c ∷ cs) = (
  λ h.
      let (first, later) = both (is_later c) (matches_rest n cs) h in
      let (short, all) = (matches_rest_iff n cs).0 later in
      (
        omega (arith, short),
        λ d m. Or.elim (Bool-set _ _) (mem-cons.0 m) (λ e. rw e first) (all d),
      ),
  λ h.
      rw (h.1 c (mem-cons.1 (Or.inl refl)))
        ((matches_rest_iff n cs).1 (omega (arith, h.0), λ d m. h.1 d (mem-cons.1 (Or.inr m)))),
)

-- The pattern for schema and channel names accepts just the names of 1 to 63 letters, digits and
-- underscores whose first character is no digit.
pub schema_name_iff :
    (name : List ℕ)
    → (matches_schema_name name ≡ true) ↔ (
        (c : ℕ) × (cs : List ℕ) × (name ≡ c ∷ cs)
        × (is_first c ≡ true)
        × (length name ≤ 63)
        × ((d : ℕ) → Mem d name → is_later d ≡ true))
unfolding matches_schema_name
schema_name_iff [] = ((λ h. cc), λ (c, cs, e, _, _, _). absurd (empty_ne e))
schema_name_iff (c ∷ cs) = (
  λ h.
      let (first, later) = both (is_first c) (matches_rest 62 cs) h in
      let (short, all) = (matches_rest_iff 62 cs).0 later in
      (
        c,
        cs,
        refl,
        first,
        omega (arith, short),
        λ d m. Or.elim (Bool-set _ _) (mem-cons.0 m) (λ e. rw e (rw first refl)) (all d),
      ),
  λ (d, ds, e, first, short, all).
      let head : is_first c ≡ true = rw (head-eq_of_cons-eq e) first in
      rw head
        ((matches_rest_iff 62 cs).1 (omega (arith, short), λ x m. all x (mem-cons.1 (Or.inr m)))),
)
