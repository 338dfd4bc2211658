-- ===== src/Prelude/Lists.antt =====
-- Lists measured by native numbers, and tests on lists that run.
use Prim.Native.Nat.{ℕ, zero, suc, ◌+◌, min}
use mathlib.Core.Path.{◌≡◌, refl, ap}
use mathlib.Core.Logic.{inl, inr, ◌≢◌}
use mathlib.Core.Logic.Or
use mathlib.Core.Bool.{Bool, true, false, ◌||◌, Bool-set, or-true}
use mathlib.Core.List.{List, [], ◌∷◌, ◌++◌, Mem, mem-cons, not-mem-nil}
use native.Mathlib.Omega.{arith}
use pgoutbox.Prelude.Tests.{HasTest, ◌==◌, Bool-cases, number_test, nat_beq_iff}

module _ {ℓ} {A : Type ℓ} where
  abbrev pub length : List A → ℕ
  length [] = 0
  length (x ∷ xs) = suc (length xs)

  abbrev pub take : ℕ → List A → List A
  take zero xs = []
  take (suc n) [] = []
  take (suc n) (x ∷ xs) = x ∷ take n xs

  abbrev pub drop : ℕ → List A → List A
  drop zero xs = xs
  drop (suc n) [] = []
  drop (suc n) (x ∷ xs) = drop n xs

  pub length-append : (xs ys : List A) → length (xs ++ ys) ≡ length xs + length ys
  length-append [] ys = omega arith
  length-append (x ∷ xs) ys = omega (arith, length-append xs ys)

  pub length-take : (n : ℕ) (xs : List A) → length (take n xs) ≡ min n (length xs)
  length-take zero xs = omega arith
  length-take (suc n) [] = omega arith
  length-take (suc n) (x ∷ xs) = omega (arith, length-take n xs)

  pub take-append-drop : (n : ℕ) (xs : List A) → take n xs ++ drop n xs ≡ xs
  take-append-drop zero xs = refl
  take-append-drop (suc n) [] = refl
  take-append-drop (suc n) (x ∷ xs) = ap (◌∷◌ x) (take-append-drop n xs)

-- `x = ANY(xs)`.
module _ {ℓ} {A : Type ℓ} ⦃e : HasTest A⦄ where
  unfoldable pub elem : A → List A → Bool
  elem a [] = false
  elem a (x ∷ xs) = a == x || elem a xs

  pub elem_of_mem : {a : A} (xs : List A) → Mem a xs → elem a xs ≡ true
  unfolding elem
  elem_of_mem [] m = absurd (not-mem-nil m)
  elem_of_mem {a} (x ∷ xs) m =
      Or.elim (Bool-set _ _) (mem-cons.0 m) (λ p. rw ((e.same_iff a x).1 p))
        (λ r. rw (elem_of_mem xs r) (or-true (a == x)))

  pub mem_of_elem : (a : A) (xs : List A) → elem a xs ≡ true → Mem a xs
  unfolding elem
  mem_of_elem a [] h = cc
  mem_of_elem a (x ∷ xs) h = elim (Bool-cases (a == x)) [
    | inl p ↦ mem-cons.1 (Or.inl ((e.same_iff a x).0 p))
    | inr p ↦ mem-cons.1 (Or.inr (mem_of_elem a xs (rw (p, elem) at h)))
  ]

pub empty_of_length {ℓ} : {A : Type ℓ} (xs : List A) → (length xs == 0) ≡ true → xs ≡ []
empty_of_length [] h = refl
empty_of_length (x ∷ xs) h = absurd (omega (arith, (nat_beq_iff _ _).0 h))

pub nonempty_of_length {ℓ} : {A : Type ℓ} (xs : List A) → (length xs == 0) ≡ false → xs ≢ []
nonempty_of_length [] h e = cc
nonempty_of_length (x ∷ xs) h e = cc

pub length_of_nonempty {ℓ} : {A : Type ℓ} (xs : List A) → xs ≢ [] → (length xs == 0) ≡ false
length_of_nonempty [] h = absurd (h refl)
length_of_nonempty (x ∷ xs) h = ground arith
