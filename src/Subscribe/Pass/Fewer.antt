-- ===== src/Subscribe/Pass/Fewer.antt =====
-- A deleted batch leaves fewer messages of its topic.
use mathlib.Core.List.{mem-cons, not-mem-nil}
use mathlib.Core.Logic.Or
use native.Mathlib.Bridge.{le_prop}
use pgoutbox.Prelude.{◌≤◌, ◌<◌, ◌≡◌, Bool, true, List, [], ◌∷◌, Mem, arith, length}
use pgoutbox.Sql.{select, delete_where}

module _ {A : Type 0} (p q : A → Bool) where
  length-delete_where_le :
      (xs : List A) → length (select p (delete_where q xs)) ≤ length (select p xs)
  length-delete_where_le [] = omega arith
  length-delete_where_le (x ∷ xs) = ground (arith, length-delete_where_le xs)

  pub length-delete_where_lt :
      {a : A} (xs : List A)
      → Mem a xs
      → p a ≡ true
      → q a ≡ true
      → length (select p (delete_where q xs)) < length (select p xs)
  length-delete_where_lt [] m h g = absurd (not-mem-nil m)
  length-delete_where_lt {a} (x ∷ xs) m h g =
      Or.elim le_prop (mem-cons.0 m) (λ e. ground (arith, length-delete_where_le xs))
        (λ k. ground (arith, length-delete_where_lt xs k h g))
