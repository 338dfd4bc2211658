-- ===== src/Wrap.antt =====
-- internal/dbwrap/wrap.go: the table names that a query leaves to be qualified by the schema.
pub mod Qualified
use pgoutbox.Prelude.{
  ℕ, zero, suc, Bool, true, false, ◌||◌, Option, none, some, List, [], ◌∷◌, ◌++◌, length, ◌==◌,
  number_test, if◌then◌else◌,
}

-- A text, as its code points.
abbrev pub Text : Type 0
Text = List ℕ

-- `/*tmpl*/`
abbrev pub marker : Text
marker = b'/' ∷ b'*' ∷ b't' ∷ b'm' ∷ b'p' ∷ b'l' ∷ b'*' ∷ b'/' ∷ []

-- `\s`: tab, newline, form feed, carriage return and space.
abbrev pub is_space : ℕ → Bool
is_space c = c == 9 || c == 10 || c == 12 || c == 13 || c == 32

unfoldable pub strip_prefix : Text → Text → Option Text
strip_prefix [] t = some t
strip_prefix (p ∷ ps) [] = none
strip_prefix (p ∷ ps) (c ∷ t) = let rest = strip_prefix ps t in if c == p then rest else none

-- `\s*`, which takes all the space there is.
unfoldable pub skip_spaces : Text → Text
skip_spaces [] = []
skip_spaces (c ∷ t) = let rest = skip_spaces t in if is_space c then rest else c ∷ t

-- `\s*/\*tmpl\*/`, and what follows it.
unfoldable pub match_close : Text → Option Text
unfolding strip_prefix skip_spaces
match_close t = strip_prefix marker (skip_spaces t)

-- What `\S+?` captures before a closing marker, as little as it can, and what follows that.
unfoldable pub match_name : Text → Option (Text × Text)
unfolding match_close
match_name [] = none
match_name (c ∷ t) =
    let longer = match_name t in
    if is_space c then none else elim (match_close t) [
      | some rest ↦ some (c ∷ [], rest)
      | none ↦ elim longer [ some (name, rest) ↦ some (c ∷ name, rest) | none ↦ none ]
    ]

abbrev name_after : Option Text → Option (Text × Text)
name_after none = none
name_after (some t) = match_name (skip_spaces t)

-- tmplRE at the start of a text: the name and what follows the match.
unfoldable pub match_tmpl : Text → Option (Text × Text)
unfolding match_name strip_prefix skip_spaces
match_tmpl t = name_after (strip_prefix marker t)

-- Wrapper, without the connection.
pub record Wrapper : Type 0 where
  pub schema_qual : Text
  pub schema_raw : Text

-- New: `sanitize` is pgx.Identifier.Sanitize.
abbrev pub new_wrapper : (Text → Text) → Text → Wrapper
new_wrapper sanitize schema = record {
  schema_qual = sanitize schema ++ b'.' ∷ [];
  schema_raw = schema;
}

-- ReplaceAllString, up to `n` characters and matches. The template `schema_qual + "$1"` has no other `$`,
-- since a schema name has none.
unfoldable pub rewrite_from : Wrapper → ℕ → Text → Text
unfolding match_tmpl
rewrite_from w zero t = []
rewrite_from w (suc n) [] = []
rewrite_from w (suc n) (c ∷ t) = elim (match_tmpl (c ∷ t)) [
  | none ↦ c ∷ rewrite_from w n t
  | some (name, rest) ↦ w.schema_qual ++ name ++ rewrite_from w n rest
]

-- rewrite: each step takes a character at least.
unfoldable pub rewrite : Wrapper → Text → Text
unfolding rewrite_from
rewrite w t = rewrite_from w (length t) t

-- The table that CopyFrom gives to the connection.
abbrev pub qualified_table : Wrapper → List Text → List Text
qualified_table w table = w.schema_raw ∷ table
