-- ===== src/Sql/Order.antt =====
-- ORDER BY a number, ascending.
use mathlib.Core.List.{mem-cons, mem-filter, not-mem-nil, Pairwise}
use native.Mathlib.Bridge.{le_prop}
use native.Mathlib.Nat.{le_trans}
use mathlib.Core.List.Perm
use mathlib.Core.Logic.Or
use pgoutbox.Prelude.{
  ◌≡◌, refl, sym, ap, ◌∙◌, ℕ, Bool, true, false, is_true, ◌≤◌, inl, inr, List, [], ◌∷◌, Mem, Perm,
  arith, leb, leb→le, Bool-cases, if◌then◌else◌, ◌↔◌,
}
use pgoutbox.Sql.{select}

module _ {ℓ} {A : Type ℓ} (key : A → ℕ) where
  insert_by : A → List A → List A
  insert_by a [] = a ∷ []
  insert_by a (r ∷ rs) =
      let rest = insert_by a rs in if leb (key a) (key r) then a ∷ r ∷ rs else r ∷ rest

  unfoldable pub order_by : List A → List A
  unfolding insert_by
  order_by [] = []
  order_by (r ∷ rs) = insert_by r (order_by rs)

  abbrev pub Ascending : List A → Type ℓ
  Ascending = Pairwise (λ a b. key a ≤ key b)

  insert_by-perm : (a : A) (rs : List A) → Perm (insert_by a rs) (a ∷ rs)
  unfolding insert_by
  insert_by-perm a [] = Perm.refl _
  insert_by-perm a (r ∷ rs) = elim (Bool-cases (leb (key a) (key r))) [
    | inl p ↦ rw p (Perm.refl _)
    | inr p ↦ rw p (Perm.trans (Perm.cons r (insert_by-perm a rs)) (Perm.swap a r rs))
  ]

  -- Ordering keeps the rows.
  pub order_by-perm : (rs : List A) → Perm (order_by rs) rs
  unfolding order_by
  order_by-perm [] = Perm.refl _
  order_by-perm (r ∷ rs) =
      Perm.trans (insert_by-perm r (order_by rs)) (Perm.cons r (order_by-perm rs))

  insert_by-Ascending : (a : A) (rs : List A) → Ascending rs → Ascending (insert_by a rs)
  unfolding insert_by
  insert_by-Ascending a [] h = Pairwise.cons (λ b m. absurd (not-mem-nil m)) Pairwise.nil
  insert_by-Ascending a (r ∷ rs) (Pairwise.cons above rest) =
      elim (Bool-cases (leb (key a) (key r))) [
        | inl p ↦ rw p (
            Pairwise.cons
              (λ b m.
                Or.elim le_prop (mem-cons.0 m) (λ e. rw e (leb→le _ _ p))
                  (λ t. le_trans (leb→le (key a) (key r) p) (above b t)))
              (Pairwise.cons above rest))
        | inr p ↦ rw p (
            Pairwise.cons
              (λ b m.
                Or.elim le_prop (mem-cons.0 ((Perm.mem_iff (insert_by-perm a rs)).0 m))
                  (λ e. rw e (ground arith)) (above b))
              (insert_by-Ascending a rs rest))
      ]

  -- Ordering orders the rows.
  pub order_by-Ascending : (rs : List A) → Ascending (order_by rs)
  unfolding order_by
  order_by-Ascending [] = Pairwise.nil
  order_by-Ascending (r ∷ rs) = insert_by-Ascending r (order_by rs) (order_by-Ascending rs)

  pub mem-order_by : (rs : List A) {a : A} → Mem a (order_by rs) ↔ Mem a rs
  mem-order_by rs = Perm.mem_iff (order_by-perm rs)

  insert_by_least :
      (a : A) (rs : List A) → ((r : A) → Mem r rs → key a ≤ key r) → insert_by a rs ≡ a ∷ rs
  unfolding insert_by
  insert_by_least a [] h = refl
  insert_by_least a (r ∷ rs) h = let least = h r (mem-cons.1 (Or.inl refl)) in ground arith

  -- Rows in order stay as they are.
  pub order_by_sorted : (rs : List A) → Ascending rs → order_by rs ≡ rs
  unfolding order_by
  order_by_sorted [] h = refl
  order_by_sorted (r ∷ rs) (Pairwise.cons above rest) =
      ap (insert_by r) (order_by_sorted rs rest) ∙ insert_by_least r rs above

  insert_by-select_out :
      (p : A → Bool) (a : A) (rs : List A) → p a ≡ false → select p (insert_by a rs) ≡ select p rs
  unfolding insert_by
  insert_by-select_out p a [] h = ground arith
  insert_by-select_out p a (r ∷ rs) h = ground (arith, insert_by-select_out p a rs h)

  insert_by-select_in :
      (p : A → Bool) (a : A) (rs : List A)
      → Ascending rs
      → p a ≡ true
      → select p (insert_by a rs) ≡ insert_by a (select p rs)
  unfolding insert_by
  insert_by-select_in p a [] up h = ground arith
  insert_by-select_in p a (r ∷ rs) (Pairwise.cons above rest) h =
      elim (Bool-cases (leb (key a) (key r))) [
        | inl le ↦
            rw (le, h)
              (sym (
                insert_by_least a (select p (r ∷ rs)) (λ b m.
                  Or.elim le_prop (mem-cons.0 ((mem-filter (λ x. is_true (p x))).0 m).0)
                    (λ e. rw e (leb→le _ _ le))
                    (λ k. le_trans (leb→le (key a) (key r) le) (above b k)))))
        | inr gt ↦ rw gt (elim (Bool-cases (p r)) [
          | inl q ↦ rw q (rw gt (ap (◌∷◌ r) (insert_by-select_in p a rs rest h)))
          | inr q ↦ rw q (insert_by-select_in p a rs rest h)
        ])
      ]

  -- Selecting rows commutes with ordering them.
  pub order_by-select :
      (p : A → Bool) (rs : List A) → order_by (select p rs) ≡ select p (order_by rs)
  unfolding order_by
  order_by-select p [] = refl
  order_by-select p (r ∷ rs) = elim (Bool-cases (p r)) [
    | inl h ↦ rw h (
        ap (insert_by r) (order_by-select p rs)
        ∙ sym (insert_by-select_in p r (order_by rs) (order_by-Ascending rs) h))
    | inr h ↦ rw h (order_by-select p rs ∙ sym (insert_by-select_out p r (order_by rs) h))
  ]
