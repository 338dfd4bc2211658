-- ===== src/Sql/Batch.antt =====
-- The first rows of a query, deleted by their keys.
use mathlib.Core.List.{mem-cons, Nodup-cons}
use mathlib.Core.List.Perm
use mathlib.Core.Logic.Or
use pgoutbox.Prelude.{
  ℕ, zero, suc, ◌≡◌, refl, sym, ap, ◌∙◌, Bool, false, ◌&&◌, List, [], ◌∷◌, map, Mem, take, drop,
  elem, HasTest, ◌==◌, arith, ==-false, ==_refl,
}
use pgoutbox.Sql.{select, delete_where}
use pgoutbox.Sql.Keys.{UniqueKeys}
use pgoutbox.Sql.Order.{order_by, order_by-perm}

module _ {A : Type 0} where
  pub select-delete :
      (p q : A → Bool) (rows : List A)
      → select p (delete_where (λ r. p r && q r) rows) ≡ delete_where q (select p rows)
  select-delete p q [] = refl
  select-delete p q (r ∷ rs) = ground (arith, select-delete p q rs)

  pub select-delete_other :
      (p q : A → Bool) (rows : List A)
      → delete_where p (delete_where (λ r. p r && q r) rows) ≡ delete_where p rows
  select-delete_other p q [] = refl
  select-delete_other p q (r ∷ rs) = ground (arith, select-delete_other p q rs)

  pub delete_nothing :
      (p : A → Bool) (rows : List A) → select p rows ≡ [] → delete_where p rows ≡ rows
  delete_nothing p [] h = refl
  delete_nothing p (r ∷ rs) h = ground (arith, delete_nothing p rs)

module _ {A K : Type 0} ⦃t : HasTest K⦄ (key : A → K) where
  delete_none : (rows : List A) → delete_where (λ r. elem (key r) []) rows ≡ rows
  unfolding elem
  delete_none [] = refl
  delete_none (r ∷ rs) = ap (◌∷◌ r) (delete_none rs)

  delete_absent :
      (k : K) (ks : List K) (rows : List A)
      → ¬ Mem k (map key rows)
      → delete_where (λ r. elem (key r) (k ∷ ks)) rows ≡ delete_where (λ r. elem (key r) ks) rows
  unfolding elem
  delete_absent k ks [] h = refl
  delete_absent k ks (r ∷ rs) h =
      let miss : (key r == k) ≡ false = ==-false (key r) k (λ e. h (mem-cons.1 (Or.inl (sym e)))) in
      let rest = delete_absent k ks rs (λ m. h (mem-cons.1 (Or.inr m))) in
      rw miss (ground (arith, rest))

  -- Of rows with different keys, deleting the first `n` by their keys leaves the others.
  pub delete_taken :
      (n : ℕ) (rows : List A)
      → UniqueKeys key rows
      → delete_where (λ r. elem (key r) (map key (take n rows))) rows ≡ drop n rows
  unfolding elem
  delete_taken zero rows u = delete_none rows
  delete_taken (suc n) [] u = refl
  delete_taken (suc n) (r ∷ rs) u = rw (==_refl (key r)) (
      delete_absent (key r) (map key (take n rs)) rs (Nodup-cons.0 u).0
      ∙ delete_taken n rs (Nodup-cons.0 u).1)

  pub UniqueKeys-order_by :
      (by : A → ℕ) (rows : List A) → UniqueKeys key rows → UniqueKeys key (order_by by rows)
  UniqueKeys-order_by by rows u = Perm.nodup (Perm.map key (Perm.symm (order_by-perm by rows))) u
