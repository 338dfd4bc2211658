-- ===== src/Wrap/Qualified.antt =====
-- What the rewriting makes of a query.
use pgoutbox.Prelude.{
  ℕ, zero, suc, ◌≤◌, ◌≡◌, refl, ap, ◌∙◌, Bool, true, false, not, ◌&&◌, Bool-cases, inl, inr, none,
  some, List, [], ◌∷◌, ◌++◌, length, ◌==◌, number_test, arith, length-append,
}
use pgoutbox.Wrap.{
  Text, marker, is_space, strip_prefix, skip_spaces, match_close, match_name, match_tmpl, Wrapper,
  rewrite_from, rewrite,
}

-- A query is text, with names between markers.
pub data Piece : Type 0 where
  plain : Text → Piece
  tmpl : Text → Text → Text → Piece

abbrev pub render_piece : Piece → Text
render_piece (plain t) = t
render_piece (tmpl before name after) = marker ++ before ++ name ++ after ++ marker

unfoldable pub render : List Piece → Text
render [] = []
render (p ∷ ps) = render_piece p ++ render ps

abbrev pub qualify_piece : Text → Piece → Text
qualify_piece qual (plain t) = t
qualify_piece qual (tmpl before name after) = qual ++ name

unfoldable pub qualify : Text → List Piece → Text
qualify qual [] = []
qualify qual (p ∷ ps) = qualify_piece qual p ++ qualify qual ps

abbrev pub is_plain_char : ℕ → Bool
is_plain_char c = not (c == b'/')

-- No comment opens in the text, nor at its end.
unfoldable pub is_plain : Text → Bool
is_plain [] = true
is_plain (c ∷ []) = not (c == b'/')
is_plain (c ∷ d ∷ t) = let rest = is_plain (d ∷ t) in not (c == b'/' && d == b'*') && rest

unfoldable pub all_spaces : Text → Bool
all_spaces [] = true
all_spaces (c ∷ t) = let rest = all_spaces t in is_space c && rest

-- A name has no space and no slash.
unfoldable pub is_name_rest : Text → Bool
is_name_rest [] = true
is_name_rest (c ∷ t) = let rest = is_name_rest t in not (is_space c) && not (c == b'/') && rest

abbrev pub is_name : Text → Bool
is_name [] = false
is_name (c ∷ t) = is_name_rest (c ∷ t)

abbrev pub is_piece : Piece → Bool
is_piece (plain t) = is_plain t
is_piece (tmpl before name after) = all_spaces before && is_name name && all_spaces after

unfoldable pub is_query : List Piece → Bool
is_query [] = true
is_query (p ∷ ps) = let rest = is_query ps in is_piece p && rest

abbrev marker_rest : Text
marker_rest = b'*' ∷ b't' ∷ b'm' ∷ b'p' ∷ b'l' ∷ b'*' ∷ b'/' ∷ []

strip_marker : (t : Text) → strip_prefix marker (marker ++ t) ≡ some t
unfolding strip_prefix
strip_marker t = refl

skip_marker : (sp t : Text) → all_spaces sp ≡ true → skip_spaces (sp ++ marker ++ t) ≡ marker ++ t
unfolding skip_spaces all_spaces
skip_marker [] t h = refl
skip_marker (c ∷ sp) t h = ground (arith, skip_marker sp t)

skip_name :
    (sp : Text) (c : ℕ) (t : Text)
    → all_spaces sp ≡ true
    → is_space c ≡ false
    → skip_spaces (sp ++ c ∷ t) ≡ c ∷ t
unfolding skip_spaces all_spaces
skip_name [] c t h k = rw k refl
skip_name (d ∷ sp) c t h k = ground (arith, skip_name sp c t, k)

close_here : (sp t : Text) → all_spaces sp ≡ true → match_close (sp ++ marker ++ t) ≡ some t
unfolding match_close
close_here sp t h = rw (skip_marker sp t h) (strip_marker t)

close_not :
    (c : ℕ) (t : Text) → is_space c ≡ false → (c == b'/') ≡ false → match_close (c ∷ t) ≡ none
unfolding match_close strip_prefix skip_spaces
close_not c t h k = rw h (rw k refl)

-- The capture is the whole name.
name_here :
    (c : ℕ) (name sp t : Text)
    → is_name_rest (c ∷ name) ≡ true
    → all_spaces sp ≡ true
    → match_name (c ∷ name ++ sp ++ marker ++ t) ≡ some (c ∷ name, t)
unfolding match_name is_name_rest
name_here c [] sp t h k =
    let solid : is_space c ≡ false = ground arith in
    let closed = close_here sp t k in rw (solid, closed) refl
name_here c (d ∷ name) sp t h k =
    let solid : is_space c ≡ false = ground arith in
    let solid_next : is_space d ≡ false = ground arith in
    let no_slash : (d == b'/') ≡ false = ground arith in
    let later : is_name_rest (d ∷ name) ≡ true = ground arith in
    let open_still = close_not d (name ++ sp ++ marker ++ t) solid_next no_slash in
    let ih = name_here d name sp t later k in rw (solid, open_still, ih) refl

no_tmpl : (c : ℕ) (t rest : Text) → is_plain (c ∷ t) ≡ true → match_tmpl (c ∷ t ++ rest) ≡ none
unfolding match_tmpl strip_prefix is_plain
no_tmpl c [] rest h = (let other : (c == b'/') ≡ false = ground arith in rw other refl)
no_tmpl c (d ∷ t) rest h = elim (Bool-cases (c == b'/')) [
  | inl slash ↦ (let other : (d == b'*') ≡ false = ground arith in rw slash (rw other refl))
  | inr other ↦ rw other refl
]

plain_later : (c : ℕ) (t : Text) → is_plain (c ∷ t) ≡ true → is_plain t ≡ true
unfolding is_plain
plain_later c [] h = refl
plain_later c (d ∷ t) h = ground arith

spread :
    (before name after rest : Text)
    → before ++ name ++ after ++ marker ++ rest ≡ before ++ (name ++ after ++ marker ++ rest)
spread [] name after rest = refl
spread (c ∷ before) name after rest = ap (λ t. c ∷ t) (spread before name after rest)

name_solid : (c : ℕ) (name : Text) → is_name_rest (c ∷ name) ≡ true → is_space c ≡ false
unfolding is_name_rest
name_solid c name h = ground arith

no_name : (before after : Text) → ¬ (is_piece (tmpl before [] after) ≡ true)
no_name before after h = ground arith

tmpl_here :
    (before name after rest : Text)
    → is_piece (tmpl before name after) ≡ true
    → match_tmpl (render_piece (tmpl before name after) ++ rest) ≡ some (name, rest)
unfolding match_tmpl
tmpl_here before [] after rest h = absurd (no_name before after h)
tmpl_here before (c ∷ name) after rest h =
    let spaces : all_spaces before ≡ true = ground arith in
    let spaces_after : all_spaces after ≡ true = ground arith in
    let named : is_name_rest (c ∷ name) ≡ true = ground arith in
    let solid = name_solid c name named in
    ap (λ r. match_name (skip_spaces r)) (spread before (c ∷ name) after rest)
    ∙ ap match_name (skip_name before c (name ++ after ++ marker ++ rest) spaces solid)
    ∙ name_here c name after rest named spaces_after

module _ (w : Wrapper) (n c : ℕ) (t : Text) where
  replace_step :
      (name rest : Text)
      → match_tmpl (c ∷ t) ≡ some (name, rest)
      → rewrite_from w (suc n) (c ∷ t) ≡ w.schema_qual ++ name ++ rewrite_from w n rest
  unfolding rewrite_from
  replace_step name rest e = rw (e, rewrite_from) refl

  keep_step : match_tmpl (c ∷ t) ≡ none → rewrite_from w (suc n) (c ∷ t) ≡ c ∷ rewrite_from w n t
  unfolding rewrite_from
  keep_step e = rw (e, rewrite_from) refl

module _ (w : Wrapper) (rest q : Text)
    (good : (m : ℕ) → length rest ≤ m → rewrite_from w m rest ≡ q) where
  rewrite-plain :
      (n : ℕ) (t : Text)
      → is_plain t ≡ true
      → length (t ++ rest) ≤ n
      → rewrite_from w n (t ++ rest) ≡ t ++ q
  unfolding rewrite_from
  rewrite-plain n [] h le = good n le
  rewrite-plain zero (c ∷ t) h le = absurd (by_length le)
    where
      by_length : ¬ (suc (length (t ++ rest)) ≤ 0)
      by_length le = omega arith
  rewrite-plain (suc n) (c ∷ t) h le =
      keep_step w n c (t ++ rest) (no_tmpl c t rest h)
      ∙ ap (λ r. c ∷ r) (rewrite-plain n t (plain_later c t h) (omega arith))

  rewrite-tmpl :
      (n : ℕ) (before name after : Text)
      → is_piece (tmpl before name after) ≡ true
      → length (render_piece (tmpl before name after) ++ rest) ≤ n
      → rewrite_from w n (render_piece (tmpl before name after) ++ rest)
        ≡ (w.schema_qual ++ name) ++ q
  unfolding rewrite_from
  rewrite-tmpl zero before name after h le = absurd (by_length le)
    where
      by_length : ¬ (length (render_piece (tmpl before name after) ++ rest) ≤ 0)
      by_length le = omega arith
  rewrite-tmpl (suc n) before name after h le =
      replace_step w n b'/' (marker_rest ++ before ++ name ++ after ++ marker ++ rest) name rest
        (tmpl_here before name after rest h)
      ∙ ap (λ r. w.schema_qual ++ name ++ r) (good n (fits before name after le))
    where
      fits :
          (before name after : Text)
          → length (render_piece (tmpl before name after) ++ rest) ≤ suc n
          → length rest ≤ n
      fits before name after le =
          (let sum = length-append (before ++ name ++ after ++ marker) rest in omega arith)

rewrite-pieces :
    (w : Wrapper) (ps : List Piece) (n : ℕ)
    → is_query ps ≡ true
    → length (render ps) ≤ n
    → rewrite_from w n (render ps) ≡ qualify w.schema_qual ps
unfolding render qualify is_query rewrite_from
rewrite-pieces w [] zero h le = refl
rewrite-pieces w [] (suc n) h le = refl
rewrite-pieces w (plain t ∷ ps) n h le =
    let here : is_plain t ≡ true = ground arith in
    let later : is_query ps ≡ true = ground arith in
    rewrite-plain w (render ps) (qualify w.schema_qual ps) (λ m. rewrite-pieces w ps m later) n t
      here le
rewrite-pieces w (tmpl before name after ∷ ps) n h le =
    let here : is_piece (tmpl before name after) ≡ true = ground arith in
    let later : is_query ps ≡ true = ground arith in
    rewrite-tmpl w (render ps) (qualify w.schema_qual ps) (λ m. rewrite-pieces w ps m later) n
      before name after here le

-- A query whose names stand between markers, with space or not, is rewritten to the same query with each
-- name qualified by the schema, its text as it was.
pub rewrite_qualifies :
    (w : Wrapper) (ps : List Piece)
    → is_query ps ≡ true
    → rewrite w (render ps) ≡ qualify w.schema_qual ps
unfolding rewrite
rewrite_qualifies w ps h = rewrite-pieces w ps (length (render ps)) h (omega arith)
