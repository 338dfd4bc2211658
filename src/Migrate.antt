-- ===== src/Migrate.antt =====
-- migrate.go: which schema names are accepted, and the migrations that run in such a schema.
pub mod Names
use Prim.Native.Char.{code}
use pgoutbox.Prelude.{
  ℕ, zero, suc, String, Bool, true, false, ◌&&◌, ◌||◌, List, [], ◌∷◌, leb, ◌==◌, number_test,
  if◌then◌else◌,
}
use pgoutbox.World.{M, pure, raise, pool_exec, ◌>>=◌, ◌>>◌, invalid_schema_name}

-- The code points of a text.
abbrev pub codes : String → List ℕ
codes String.[] = []
codes (String.◌∷◌ c s) = code c ∷ codes s

abbrev pub is_letter : ℕ → Bool
is_letter c = (leb b'A' c && leb c b'Z') || (leb b'a' c && leb c b'z')

-- `[A-Za-z_]` and `[A-Za-z0-9_]`
abbrev pub is_first : ℕ → Bool
is_first c = is_letter c || c == b'_'

abbrev pub is_later : ℕ → Bool
is_later c = is_first c || (leb b'0' c && leb c b'9')

-- `[A-Za-z0-9_]{0,n}$`
unfoldable pub matches_rest : ℕ → List ℕ → Bool
matches_rest n [] = true
matches_rest zero (c ∷ cs) = false
matches_rest (suc n) (c ∷ cs) = is_later c && matches_rest n cs

-- schemaNameRE
unfoldable pub matches_schema_name : List ℕ → Bool
unfolding matches_rest
matches_schema_name [] = false
matches_schema_name (c ∷ cs) = is_first c && matches_rest 62 cs

-- validateSchemaName
unfoldable pub validate_schema_name : String → M (Unit {0})
unfolding matches_schema_name
validate_schema_name schema =
    if matches_schema_name (codes schema) then pure tt else raise invalid_schema_name

-- runMigrations: `up` is what goose does, on a connection of its own. CREATE SCHEMA IF NOT EXISTS changes
-- no table.
unfoldable pub run_migrations : M (Unit {0}) → String → M (Unit {0})
unfolding validate_schema_name pool_exec
run_migrations up schema = do validate_schema_name schema; pool_exec (λ db. db); up
