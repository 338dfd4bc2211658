-- ===== src/Prelude/Tests.antt =====
-- Boolean tests on numbers and texts, and the conditional.
use Prim.Native.Nat.{ℕ, ◌≤◌, ◌<◌, compare, Ordering}
use Prim.Native.String.{String}
use mathlib.Core.Path.{◌≡◌, refl}
use mathlib.Core.Logic.{◌↔◌, ◌⊎◌, inl, inr, ◌≢◌}
use mathlib.Core.Bool.{Bool, true, false, false≢true}
use mathlib.Core.Option.{Option, none, some}
use mathlib.Core.HLevel.{hedberg}
use native.Mathlib.Omega.{arith}
use text.Mathlib.Text.{◌==◌ as str_beq}
use text.Mathlib.TextEquality.{eq_iff}

-- These compute to `compare`, which `ground` and `grind` read with no lemma listed.
abbrev pub ltb : ℕ → ℕ → Bool
ltb a b = elim (compare a b) [ Ordering.lt ↦ true | _ ↦ false ]

abbrev pub leb : ℕ → ℕ → Bool
leb a b = elim (compare a b) [ Ordering.gt ↦ false | _ ↦ true ]

abbrev pub nat_beq : ℕ → ℕ → Bool
nat_beq a b = elim (compare a b) [ Ordering.eq ↦ true | _ ↦ false ]

infix 1 if◌then◌else◌
abbrev pub if◌then◌else◌ {ℓ} : {A : Type ℓ} → Bool → A → A → A
if true then x else y = x
if false then x else y = y

pub ltb→lt : (a b : ℕ) → ltb a b ≡ true → a < b
ltb→lt a b h = ground arith

pub lt→ltb : (a b : ℕ) → a < b → ltb a b ≡ true
lt→ltb a b h = ground arith

pub leb→le : (a b : ℕ) → leb a b ≡ true → a ≤ b
leb→le a b h = ground arith

pub nat_beq_iff : (a b : ℕ) → (nat_beq a b ≡ true) ↔ (a ≡ b)
nat_beq_iff a b = ground arith

pub ruleset tests = (arith, ltb→lt, lt→ltb, leb→le)

-- To split on a computed value and keep the equation.
pub Bool-cases : (b : Bool) → (b ≡ true) ⊎ (b ≡ false)
Bool-cases true = inl refl
Bool-cases false = inr refl

pub Option-cases {ℓ} : {A : Type ℓ} (o : Option A) → (o ≡ none) ⊎ ((a : A) × (o ≡ some a))
Option-cases none = inl refl
Option-cases (some a) = inr (a, refl)

-- Types whose values the program compares by `==`, with a test that decides equality.
pub record HasTest {ℓ} (A : Type ℓ) : Type ℓ where
  pub same : A → A → Bool
  pub same_iff : (x y : A) → (same x y ≡ true) ↔ (x ≡ y)

module _ {ℓ} {A : Type ℓ} ⦃t : HasTest A⦄ where
  infix 50 ◌==◌
  abbrev pub ◌==◌ : A → A → Bool
  ◌==◌ x y = t.same x y

  pub ==_refl : (x : A) → (x == x) ≡ true
  ==_refl x = (t.same_iff x x).1 refl

  pub ==-false : (x y : A) → x ≢ y → (x == y) ≡ false
  ==-false x y h = elim (Bool-cases (x == y)) [
    | inl p ↦ absurd (h ((t.same_iff x y).0 p))
    | inr p ↦ p
  ]

  pub ne_of_false : (x y : A) → (x == y) ≡ false → x ≢ y
  ne_of_false x y h p = cc ((t.same_iff x y).1 p)

-- Topics are compared as texts, ids and instants as numbers.
instance abbrev pub text_test : HasTest String
text_test = record { same_iff = eq_iff; same = str_beq }

instance abbrev pub number_test : HasTest ℕ
number_test = record { same_iff = nat_beq_iff; same = nat_beq }

-- `b ≡ true` is decided, so that the library's `filter` takes a Boolean test.
abbrev pub is_true : (b : Bool) → Dec (b ≡ true)
is_true true = yes refl
is_true false = no false≢true

pub String-discrete : Discrete String
String-discrete a b = elim (Bool-cases (a == b)) [
  | inl p ↦ yes ((eq_iff a b).0 p)
  | inr p ↦ no (ne_of_false a b p)
]

pub String-set : IsSet String
String-set = hedberg String-discrete
