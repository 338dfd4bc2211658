-- ===== src/Sql/Keys.antt =====
-- Tables with a primary key, and what the statements do to it.
use mathlib.Core.List.{
  Nodup-nil, Nodup-cons, Nodup-append, map-append, mem-cons, mem-filter, mem-map, mem-cast,
  not-mem-nil,
}
use mathlib.Core.Logic.{∥∥₁_map}
use mathlib.Core.Logic.Or
use mathlib.Core.HLevel.{⊥_prop}
use mathlib.Core.Option
use pgoutbox.Prelude.{
  ◌≡◌, refl, sym, HasTest, ◌==◌, ne_of_false, Bool, true, false, none, some, List, [], ◌∷◌, ◌++◌,
  map, Mem, Nodup, arith, is_true, if◌then◌else◌, Bool-cases, inl, inr,
}
use pgoutbox.Sql.{select, update_where, query_row}

module _ {ℓ κ} {A : Type ℓ} {K : Type κ} (key : A → K) where
  abbrev pub UniqueKeys : List A → Type κ
  UniqueKeys rows = Nodup (map key rows)

  pub mem-map-select :
      (p : A → Bool) (rows : List A) {k : K}
      → Mem k (map key (select p rows))
      → Mem k (map key rows)
  mem-map-select p rows m =
      mem-map.1
        (∥∥₁_map (mem-map.0 m) (λ (a, am, e). (a, ((mem-filter (λ r. is_true (p r))).0 am).0, e)))

  pub UniqueKeys-select :
      (p : A → Bool) (rows : List A) → UniqueKeys rows → UniqueKeys (select p rows)
  UniqueKeys-select p [] u = u
  UniqueKeys-select p (r ∷ rs) u = elim (Bool-cases (p r)) [
    | inl e ↦ rw e (
        Nodup-cons.1 (
          (λ m. (Nodup-cons.0 u).0 (mem-map-select p rs m)),
          UniqueKeys-select p rs (Nodup-cons.0 u).1,
        ))
    | inr e ↦ rw e (UniqueKeys-select p rs (Nodup-cons.0 u).1)
  ]

  -- An update that keeps the key.
  pub map-update_where :
      (p : A → Bool) (f : A → A) (rows : List A)
      → ((r : A) → key (f r) ≡ key r)
      → map key (update_where p f rows) ≡ map key rows
  map-update_where p f [] h = refl
  map-update_where p f (r ∷ rs) h = ground (arith, h r, map-update_where p f rs h)

module _ {ℓ} {A : Type ℓ} where
  -- The first row after an update of just the rows that are looked for.
  pub query_row-update_self :
      (p : A → Bool) (f : A → A) (rows : List A)
      → ((r : A) → p r ≡ true → p (f r) ≡ true)
      → query_row p (update_where p f rows) ≡ Option.map f (query_row p rows)
  unfolding query_row
  query_row-update_self p f [] h = refl
  query_row-update_self p f (r ∷ rs) h = ground (arith, h r, query_row-update_self p f rs h)

  -- The first row after an update that keeps what is looked for.
  pub query_row-update_where :
      (p q : A → Bool) (f : A → A) (rows : List A)
      → ((r : A) → p (f r) ≡ p r)
      → query_row p (update_where q f rows)
        ≡ Option.map (λ r. if q r then f r else r) (query_row p rows)
  unfolding query_row
  query_row-update_where p q f [] h = refl
  query_row-update_where p q f (r ∷ rs) h = ground (arith, h r, query_row-update_where p q f rs h)

  -- The first row after an update of others.
  pub query_row-update_other :
      (p q : A → Bool) (f : A → A) (rows : List A)
      → ((r : A) → q r ≡ true → p r ≡ false)
      → ((r : A) → q r ≡ true → p (f r) ≡ false)
      → query_row p (update_where q f rows) ≡ query_row p rows
  unfolding query_row
  query_row-update_other p q f [] h k = refl
  query_row-update_other p q f (r ∷ rs) h k =
      ground (arith, h r, k r, query_row-update_other p q f rs h k)

  pub query_row-append_row :
      (p : A → Bool) (rows : List A) (r : A)
      → query_row p rows ≡ none
      → p r ≡ true
      → query_row p (rows ++ r ∷ []) ≡ some r
  unfolding query_row
  query_row-append_row p [] r h e = ground arith
  query_row-append_row p (x ∷ rows) r h e = ground (arith, query_row-append_row p rows r)

  pub query_row-append_other :
      (p : A → Bool) (rows : List A) (r : A)
      → p r ≡ false
      → query_row p (rows ++ r ∷ []) ≡ query_row p rows
  unfolding query_row
  query_row-append_other p [] r e = ground arith
  query_row-append_other p (x ∷ rows) r e = ground (arith, query_row-append_other p rows r e)

  pub query_row-holds :
      (p : A → Bool) (rows : List A) {r : A} → query_row p rows ≡ some r → p r ≡ true
  unfolding query_row
  query_row-holds p [] h = cc
  query_row-holds p (x ∷ rows) {r} h = ground (arith, query_row-holds p rows {r = r})

none_ne_some {ℓ} : {A : Type ℓ} {r : A} → some r ≡ none → ⊥
none_ne_some p = cc

module _ {ℓ κ} {A : Type ℓ} {K : Type κ} ⦃e : HasTest K⦄ (key : A → K) where
  -- A key that is not found is the key of no row.
  pub not-mem_of_query_none :
      (k : K) (rows : List A) → query_row (λ r. key r == k) rows ≡ none → ¬ Mem k (map key rows)
  unfolding query_row
  not-mem_of_query_none k [] h m = not-mem-nil m
  not-mem_of_query_none k (r ∷ rows) h m = elim (Bool-cases (key r == k)) [
    | inl p ↦ absurd (none_ne_some (rw (p, query_row) at h))
    | inr p ↦
        Or.elim ⊥_prop (mem-cons.0 m) (λ same. ne_of_false (key r) k p (sym same))
          (not-mem_of_query_none k rows (rw (p, query_row) at h))
  ]

  pub UniqueKeys-append_row :
      (rows : List A) (r : A)
      → UniqueKeys key rows
      → query_row (λ x. key x == key r) rows ≡ none
      → UniqueKeys key (rows ++ r ∷ [])
  UniqueKeys-append_row rows r u h = rw (map-append key rows (r ∷ [])) (
      Nodup-append.1 (
        u,
        Nodup-cons.1 (not-mem-nil, Nodup-nil),
        λ k m last.
            Or.elim ⊥_prop (mem-cons.0 last)
              (λ same. not-mem_of_query_none (key r) rows h (mem-cast (sym same) m)) not-mem-nil,
      ))

module _ {ℓ} {A : Type ℓ} where
  pub mem_of_mem-select :
      (p : A → Bool) (rows : List A) {a : A} → Mem a (select p rows) → Mem a rows
  mem_of_mem-select p rows m = ((mem-filter (λ r. is_true (p r))).0 m).0

  pub mem_of_query_row :
      (p : A → Bool) (rows : List A) {r : A} → query_row p rows ≡ some r → Mem r rows
  unfolding query_row
  mem_of_query_row p [] h = cc
  mem_of_query_row p (x ∷ rows) h = elim (Bool-cases (p x)) [
    | inl hit ↦ mem-cons.1 (Or.inl (sym (Option.some-injective _ _ (rw (hit, query_row) at h))))
    | inr miss ↦ mem-cons.1 (Or.inr (mem_of_query_row p rows (rw (miss, query_row) at h)))
  ]
