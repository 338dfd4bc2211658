-- ===== src/Tests/Collation.antt =====
-- The collation "C": by the numbers of the characters.
use Prim.Native.Char.{Char, code}
use Prim.Native.String.{String, [], ◌∷◌}
use Prim.Native.Nat.{compare}
use text.Mathlib.TextEquality.{codes_equal}
use text.Mathlib.TextPositions.{compare_self}
use pgoutbox.Prelude.{◌≡◌, refl, ap, ◌∙◌, Bool, true, false, not, ◌&&◌, ◌||◌, ltb, arith}
use pgoutbox.Db.Listing.Least.{IsCollation}

abbrev pub by_code : String → String → Bool
by_code s [] = false
by_code [] (d ∷ t) = true
by_code (c ∷ s) (d ∷ t) = ltb (code c) (code d) || (not (ltb (code d) (code c)) && by_code s t)

irreflexive : (s : String) → by_code s s ≡ false
irreflexive [] = refl
irreflexive (c ∷ s) = ground (arith, irreflexive s)

transitive : (s t u : String) → by_code s t ≡ true → by_code t u ≡ true → by_code s u ≡ true
transitive s [] u h k = cc
transitive s (d ∷ t) [] h k = cc
transitive [] (d ∷ t) (e ∷ u) h k = refl
transitive (c ∷ s) (d ∷ t) (e ∷ u) h k = ground (arith, transitive s t u)

same_code : (c d : Char) → code c ≡ code d → c ≡ d
same_code c d e = codes_equal c d (ap (λ n. compare n (code d)) e ∙ compare_self (code d))

total : (s t : String) → by_code s t ≡ false → by_code t s ≡ false → s ≡ t
total [] [] h k = refl
total [] (d ∷ t) h k = cc
total (c ∷ s) [] h k = cc
total (c ∷ s) (d ∷ t) h k =
    let first : code c ≡ code d = ground arith in
    let before : by_code s t ≡ false = ground arith in
    let after : by_code t s ≡ false = ground arith in
    ap (λ x. x ∷ s) (same_code c d first) ∙ ap (λ r. d ∷ r) (total s t before after)

pub by_code-IsCollation : IsCollation by_code
by_code-IsCollation = record { irreflexive = irreflexive; transitive = transitive; total = total }
