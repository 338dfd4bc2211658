-- ===== src/Watcher/OneWatcher.antt =====
-- At most one watcher of a topic is alive, and Stop has the last word.
use mathlib.Core.Option
use pgoutbox.Prelude.{
  ℕ, suc, ◌≤◌, ◌≡◌, ◌≢◌, refl, sym, ◌∙◌, ap, inl, inr, Bool, true, false, Option, none, some, List,
  [], ◌∷◌, ◌++◌, arith, length, elem, Bool-cases, ◌==◌, ne_of_false, number_test,
}
use pgoutbox.Sql.{query_row, delete_where}
use pgoutbox.Watcher.{
  Watch, Phase, watching, stopped, firing, idle, blocked, Action, call, returns, context_ends,
  leaves, fires, closes, go_on, step, Reach, start, take, cancel, phase_of, stop_running,
  with_phase, exit,
}

abbrev pub nobody : ℕ → List ℕ → List ℕ → Watch
nobody n ws cs = record {
  running = none;
  alive = [];
  next = n;
  caller = idle;
  writes = ws;
  closing = cs;
}

abbrev pub one_alive : ℕ → Phase → ℕ → List ℕ → List ℕ → Watch
one_alive h p n ws cs = record {
  running = some h;
  alive = record { id = h; phase = p } ∷ [];
  next = n;
  caller = idle;
  writes = ws;
  closing = cs;
}

abbrev pub one_waited : ℕ → Phase → Bool → ℕ → List ℕ → List ℕ → Watch
one_waited h p r n ws cs = record {
  running = none;
  alive = record { id = h; phase = p } ∷ [];
  next = n;
  caller = blocked h r;
  writes = ws;
  closing = cs;
}

abbrev pub none_waited : ℕ → Bool → ℕ → List ℕ → List ℕ → Watch
none_waited h r n ws cs = record {
  running = none;
  alive = [];
  next = n;
  caller = blocked h r;
  writes = ws;
  closing = cs;
}

-- The shapes that a reachable state has.
pub data Shape (w : Watch) : Type 0 where
  quiet : (n : ℕ) (ws cs : List ℕ) → w ≡ nobody n ws cs → Shape w
  watched : (h n : ℕ) (ws cs : List ℕ) → w ≡ one_alive h watching n ws cs → Shape w
  fired : (h n : ℕ) (ws cs : List ℕ) → w ≡ one_alive h firing n ws cs → Shape w
  waited :
      (h : ℕ) (p : Phase) (r : Bool) (n : ℕ) (ws cs : List ℕ)
      → p ≢ watching
      → w ≡ one_waited h p r n ws cs
      → Shape w
  ended : (h : ℕ) (r : Bool) (n : ℕ) (ws cs : List ℕ) → w ≡ none_waited h r n ws cs → Shape w

stopped_ne : stopped ≢ watching
stopped_ne e = cc

firing_ne : firing ≢ watching
firing_ne e = cc

reached : {w w' : Watch} → some w ≡ some w' → w' ≡ w
reached {w} {w'} e = sym (Option.some-injective w w' e)

blocks {ℓ} : {P : Type ℓ} {w : Watch} → none ≡ some w → P
blocks e = cc

after_wait :
    (r : Bool) (n : ℕ) (ws cs : List ℕ) (w' : Watch)
    → some (go_on r (nobody n ws cs)) ≡ some w'
    → Shape w'
after_wait false n ws cs w' e = quiet n ws cs (reached e)
after_wait true n ws cs w' e = watched n (suc n) ws cs (reached e)

-- A goroutine that closes its `done` changes nothing else.
after_close :
    (k : ℕ) (w w' : Watch) → step (closes k) w ≡ some w' → w' ≡ record w { closing = w'.closing }
unfolding step
after_close k w w' e = elim (Bool-cases (elem k w.closing)) [
  | inl there ↦ closed (rw (there, step) at e)
  | inr gone ↦ blocks (rw (gone, step) at e)
]
  where
    closed :
        some (record w { closing = delete_where (λ j. j == k) w.closing }) ≡ some w'
        → w' ≡ record w { closing = w'.closing }
    closed e = reached e ∙ ap (λ (x : Watch). record w { closing = x.closing }) (sym (reached e))

after_quiet :
    (a : Action) (n : ℕ) (ws cs : List ℕ) (w' : Watch)
    → step a (nobody n ws cs) ≡ some w'
    → Shape w'
unfolding step
after_quiet (call false) n ws cs w' e = quiet n ws cs (reached e)
after_quiet (call true) n ws cs w' e = watched n (suc n) ws cs (reached e)
after_quiet returns n ws cs w' e = blocks e
after_quiet (context_ends k) n ws cs w' e = blocks e
after_quiet (leaves k) n ws cs w' e = blocks e
after_quiet (fires k) n ws cs w' e = blocks e
after_quiet (closes k) n ws cs w' e = quiet n ws w'.closing (after_close k _ w' e)

after_ended :
    (a : Action) (h : ℕ) (r : Bool) (n : ℕ) (ws cs : List ℕ) (w' : Watch)
    → step a (none_waited h r n ws cs) ≡ some w'
    → Shape w'
unfolding step
after_ended (call s) h r n ws cs w' e = blocks e
after_ended returns h r n ws cs w' e = elim (Bool-cases (elem h cs)) [
  | inl left ↦ blocks (rw (left, step) at e)
  | inr gone ↦ after_wait r n ws cs w' (rw (gone, step) at e)
]
after_ended (context_ends k) h r n ws cs w' e = blocks e
after_ended (leaves k) h r n ws cs w' e = blocks e
after_ended (fires k) h r n ws cs w' e = blocks e
after_ended (closes k) h r n ws cs w' e = ended h r n ws w'.closing (after_close k _ w' e)

pub found_phase : (h : ℕ) (p : Phase) → phase_of h (record { id = h; phase = p } ∷ []) ≡ some p
unfolding query_row
found_phase h p = elim (Bool-cases (h == h)) [
  | inl same ↦ rw (same, phase_of) refl
  | inr other ↦ absurd (ne_of_false h h other refl)
]

cancel_watching :
    (h : ℕ) (x : Option Phase)
    → x ≡ some watching
    → cancel x h (record { id = h; phase = watching } ∷ [])
      ≡ record { id = h; phase = stopped } ∷ []
cancel_watching h x e = elim (Bool-cases (h == h)) [
  | inl same ↦ rw e (rw same refl)
  | inr other ↦ absurd (ne_of_false h h other refl)
]

cancel_firing :
    (h : ℕ) (x : Option Phase)
    → x ≡ some firing
    → cancel x h (record { id = h; phase = firing } ∷ []) ≡ record { id = h; phase = firing } ∷ []
cancel_firing h x e = rw e refl

-- Stop finds the goroutine of the map's entry.
stop_found :
    (s : Bool) (h : ℕ) (p q : Phase) (n : ℕ) (ws cs : List ℕ)
    → ((x : Option Phase)
        → x ≡ some p
        → cancel x h (record { id = h; phase = p } ∷ []) ≡ record { id = h; phase = q } ∷ [])
    → stop_running s (some h) (one_alive h p n ws cs) ≡ one_waited h q s n ws cs
stop_found s h p q n ws cs cancelled =
    ap (λ handles. record (one_waited h q s n ws cs) { alive = handles })
      (cancelled (phase_of h (record { id = h; phase = p } ∷ [])) (found_phase h p))

after_watched :
    (a : Action) (h n : ℕ) (ws cs : List ℕ) (w' : Watch)
    → step a (one_alive h watching n ws cs) ≡ some w'
    → Shape w'
unfolding step
after_watched (call s) h n ws cs w' e =
    waited h stopped s n ws cs stopped_ne
      (reached e ∙ stop_found s h watching stopped n ws cs (cancel_watching h))
after_watched returns h n ws cs w' e = blocks e
after_watched (context_ends k) h n ws cs w' e = elim (Bool-cases (h == k)) [
  | inl same ↦ fired h n ws cs (reached (rw (same, with_phase) at (rw (same, step) at e)))
  | inr other ↦ blocks (rw (other, step) at e)
]
after_watched (leaves k) h n ws cs w' e = elim (Bool-cases (h == k)) [
  | inl same ↦ blocks (rw (same, step) at e)
  | inr other ↦ blocks (rw (other, step) at e)
]
after_watched (fires k) h n ws cs w' e = elim (Bool-cases (h == k)) [
  | inl same ↦ blocks (rw (same, step) at e)
  | inr other ↦ blocks (rw (other, step) at e)
]
after_watched (closes k) h n ws cs w' e = watched h n ws w'.closing (after_close k _ w' e)

after_fired :
    (a : Action) (h n : ℕ) (ws cs : List ℕ) (w' : Watch)
    → step a (one_alive h firing n ws cs) ≡ some w'
    → Shape w'
unfolding step
after_fired (call s) h n ws cs w' e =
    waited h firing s n ws cs firing_ne
      (reached e ∙ stop_found s h firing firing n ws cs (cancel_firing h))
after_fired returns h n ws cs w' e = blocks e
after_fired (context_ends k) h n ws cs w' e = elim (Bool-cases (h == k)) [
  | inl same ↦ blocks (rw (same, step) at e)
  | inr other ↦ blocks (rw (other, step) at e)
]
after_fired (leaves k) h n ws cs w' e = elim (Bool-cases (h == k)) [
  | inl same ↦ blocks (rw (same, step) at e)
  | inr other ↦ blocks (rw (other, step) at e)
]
after_fired (fires k) h n ws cs w' e = elim (Bool-cases (h == k)) [
  | inl same ↦ quiet n (ws ++ k ∷ []) (k ∷ cs) (reached (rw (same, exit) at (rw (same, step) at e)))
  | inr other ↦ blocks (rw (other, step) at e)
]
after_fired (closes k) h n ws cs w' e = fired h n ws w'.closing (after_close k _ w' e)

after_waited :
    (a : Action) (h : ℕ) (p : Phase) (r : Bool) (n : ℕ) (ws cs : List ℕ) (w' : Watch)
    → p ≢ watching
    → step a (one_waited h p r n ws cs) ≡ some w'
    → Shape w'
unfolding step
after_waited (call s) h p r n ws cs w' live e = blocks e
after_waited returns h p r n ws cs w' live e = blocks (still_blocked e)
  where
    still_blocked : step returns (one_waited h p r n ws cs) ≡ some w' → none ≡ some w'
    still_blocked e = rw (found_phase h p, step) at e
after_waited (context_ends k) h watching r n ws cs w' live e = absurd (live refl)
after_waited (context_ends k) h _ r n ws cs w' live e = elim (Bool-cases (h == k)) [
  | inl same ↦ blocks (rw (same, step) at e)
  | inr other ↦ blocks (rw (other, step) at e)
]
after_waited (leaves k) h stopped r n ws cs w' live e = elim (Bool-cases (h == k)) [
  | inl same ↦ ended h r n ws (k ∷ cs) (reached (rw (same, exit) at (rw (same, step) at e)))
  | inr other ↦ blocks (rw (other, step) at e)
]
after_waited (leaves k) h _ r n ws cs w' live e = elim (Bool-cases (h == k)) [
  | inl same ↦ blocks (rw (same, step) at e)
  | inr other ↦ blocks (rw (other, step) at e)
]
after_waited (fires k) h firing r n ws cs w' live e = elim (Bool-cases (h == k)) [
  | inl same ↦
      ended h r n (ws ++ k ∷ []) (k ∷ cs) (reached (rw (same, exit) at (rw (same, step) at e)))
  | inr other ↦ blocks (rw (other, step) at e)
]
after_waited (fires k) h _ r n ws cs w' live e = elim (Bool-cases (h == k)) [
  | inl same ↦ blocks (rw (same, step) at e)
  | inr other ↦ blocks (rw (other, step) at e)
]
after_waited (closes k) h p r n ws cs w' live e =
    waited h p r n ws w'.closing live (after_close k _ w' e)

pub reach-Shape : (w : Watch) → Reach w → Shape w
reach-Shape w start = quiet 0 [] [] refl
reach-Shape w' (take a w _ before e) = by_shape (reach-Shape w before)
  where
    by_shape : Shape w → Shape w'
    by_shape (quiet n ws cs s) = after_quiet a n ws cs w' (rw s at e)
    by_shape (watched h n ws cs s) = after_watched a h n ws cs w' (rw s at e)
    by_shape (fired h n ws cs s) = after_fired a h n ws cs w' (rw s at e)
    by_shape (waited h p r n ws cs live s) = after_waited a h p r n ws cs w' live (rw s at e)
    by_shape (ended h r n ws cs s) = after_ended a h r n ws cs w' (rw s at e)

-- With a caller that makes one call of Start or Stop at a time, and whatever the order of those calls,
-- cancellations and goroutine steps, at most one watcher goroutine of the topic has not left the map
-- yet; the others have only their close(done) left.
pub one_watcher : (w : Watch) → Reach w → length w.alive ≤ 1
one_watcher w r = by_shape (reach-Shape w r)
  where
    by_shape : Shape w → length w.alive ≤ 1
    by_shape (quiet n ws cs s) = rw s (omega arith)
    by_shape (watched h n ws cs s) = rw s (omega arith)
    by_shape (fired h n ws cs s) = rw s (omega arith)
    by_shape (waited h p r n ws cs live s) = rw s (omega arith)
    by_shape (ended h r n ws cs s) = rw s (omega arith)
