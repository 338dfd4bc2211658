-- ===== src/Tests/Wrap.antt =====
-- The rewriting of a query, run.
use pgoutbox.Prelude.{◌≡◌, refl, true, List, [], ◌∷◌, ◌++◌}
use pgoutbox.Migrate.{codes}
use pgoutbox.Wrap.{Text, Wrapper, new_wrapper, rewrite}
use pgoutbox.Wrap.Qualified.{
  Piece, plain, tmpl, render, qualify, is_query, rewrite_qualifies, is_plain, all_spaces,
  is_name_rest,
}

abbrev quoted : Text → Text
quoted t = b'"' ∷ t ++ b'"' ∷ []

abbrev wrapper : Wrapper
wrapper = new_wrapper quoted (codes "app")

abbrev query : List Piece
query =
    plain (codes "SELECT id / 2 FROM ")
    ∷ tmpl (codes " ") (codes "messages") (codes " ")
    ∷ plain (codes " m JOIN ")
    ∷ tmpl [] (codes "topics") []
    ∷ []

query_ok : is_query query ≡ true
unfolding is_query is_plain all_spaces is_name_rest
query_ok = refl

rewrite_qualifies_example : rewrite wrapper (render query) ≡ qualify (codes "\"app\".") query
rewrite_qualifies_example = rewrite_qualifies wrapper query query_ok

rewritten :
    rewrite wrapper (codes "SELECT id / 2 FROM /*tmpl*/ messages /*tmpl*/ m")
    ≡ codes "SELECT id / 2 FROM \"app\".messages m"
unfolding rewrite
rewritten = refl
