-- ===== src/Sql.antt =====
-- The parts of SQL that the statements of sqlc/queries.sql.go use, over tables as lists of rows.
pub mod Order
pub mod Keys
pub mod Batch
use mathlib.Core.List.{filter}
use pgoutbox.Prelude.{
  ℕ, ◌≡◌, Bool, true, false, not, Option, none, some, List, [], ◌∷◌, map, is_true, if◌then◌else◌,
}

module _ {ℓ} {A : Type ℓ} where
  -- WHERE
  abbrev pub select : (A → Bool) → List A → List A
  select p = filter (λ r. is_true (p r))

  -- DELETE … WHERE
  abbrev pub delete_where : (A → Bool) → List A → List A
  delete_where p = select (λ r. not (p r))

  -- UPDATE … SET … WHERE
  abbrev pub update_where : (A → Bool) → (A → A) → List A → List A
  update_where p f = map (λ r. if p r then f r else r)

  -- The first row of a `:one` query, `none` for `pgx.ErrNoRows`.
  unfoldable pub query_row : (A → Bool) → List A → Option A
  query_row p [] = none
  query_row p (r ∷ rs) = if p r then some r else query_row p rs

  abbrev pub coalesce : Option A → Option A → Option A
  coalesce none b = b
  coalesce (some a) b = some a

  abbrev pub coalesce_or : Option A → A → A
  coalesce_or none a = a
  coalesce_or (some b) a = b

-- A comparison with NULL is NULL.
abbrev pub null_test {ℓ} : {A : Type ℓ} → (A → Bool) → Option A → Option Bool
null_test p none = none
null_test p (some a) = some (p a)

-- `a IS NULL OR p a`
abbrev pub null_or {ℓ} : {A : Type ℓ} → (A → Bool) → Option A → Bool
null_or p none = true
null_or p (some a) = p a
