-- ===== src/Watcher/LastWord.antt =====
-- Stop returns, and when it does nothing is left that could write after it.
use mathlib.Core.Option
use pgoutbox.Prelude.{
  ℕ, ◌≡◌, refl, sym, ◌∙◌, ap, inl, inr, Bool, true, false, none, some, List, [], ◌∷◌, ◌++◌,
  Bool-cases, elem, length, ◌≤◌, subst, Option, arith, ◌==◌, ne_of_false, number_test,
}
use pgoutbox.Sql.{delete_where}
use pgoutbox.Watcher.{
  Watch, Handle, Phase, watching, stopped, firing, Caller, idle, blocked, Action, returns, leaves,
  fires, closes, call, go_on, step, Reach, exit,
}
use pgoutbox.Watcher.OneWatcher.{
  Shape, nobody, quiet, watched, fired, waited, ended, reach-Shape, one_waited, none_waited,
  found_phase,
}

-- The goroutines after a Stop has returned: none, or the one of the Start that it was part of.
abbrev pub after_stop : Bool → ℕ → List Handle
after_stop false n = []
after_stop true n = record { id = n; phase = watching } ∷ []

caller_clash : {h : ℕ} {r : Bool} → idle ≡ blocked h r → ⊥
caller_clash e = cc

restart_of : Caller → Bool
restart_of idle = false
restart_of (blocked h r) = r

none_ne_some {ℓ} : {A : Type ℓ} {x : A} → none ≡ some x → ⊥
none_ne_some e = cc

-- How a Stop returns, alone or acts the first part of Start: by the end of its wait, or at once when it
-- finds no entry.
pub data StopReturns (w : Watch) (restart : Bool) : Action → Type 0 where
  waited_for : (h : ℕ) → w.caller ≡ blocked h restart → StopReturns w restart returns
  at_once : w.caller ≡ idle → w.running ≡ none → StopReturns w restart (call restart)

not_yet :
    (k : ℕ) (p : Phase) (r : Bool) (n : ℕ) (ws cs : List ℕ) (w' : Watch)
    → ¬ (step returns (one_waited k p r n ws cs) ≡ some w')
unfolding step
not_yet k p r n ws cs w' e = none_ne_some (rw (found_phase k p, step) at e)

abbrev LastWord : Bool → Watch → Watch → Type 0
LastWord restart w w' =
    (w.alive ≡ []) × (w'.alive ≡ after_stop restart w.next) × (w'.writes ≡ w.writes)

-- The step that goes on from a state with no goroutine in the map.
goes_on :
    (r : Bool) (c : Caller) (n : ℕ) (ws cs : List ℕ) (w w' : Watch)
    → w ≡ record (nobody n ws cs) { caller = c }
    → some (go_on r (nobody n ws cs)) ≡ some w'
    → LastWord r w w'
goes_on false c n ws cs w w' s e =
    let same = sym (Option.some-injective _ w' e) in rw s (rw same (refl, refl, refl))
goes_on true c n ws cs w w' s e =
    let same = sym (Option.some-injective _ w' e) in rw s (rw same (refl, refl, refl))

ended_returns :
    (k : ℕ) (r : Bool) (n : ℕ) (ws cs : List ℕ) (w' : Watch)
    → step returns (none_waited k r n ws cs) ≡ some w'
    → some (go_on r (nobody n ws cs)) ≡ some w'
unfolding step
ended_returns k r n ws cs w' e = elim (Bool-cases (elem k cs)) [
  | inl left ↦ absurd (none_ne_some (rw (left, step) at e))
  | inr gone ↦ rw (gone, step) at e
]

waited_out :
    (w w' : Watch) (h : ℕ) (restart : Bool)
    → Shape w
    → w.caller ≡ blocked h restart
    → step returns w ≡ some w'
    → LastWord restart w w'
unfolding restart_of
waited_out w w' h restart (quiet n ws cs s) busy e = absurd (caller_clash (rw s at busy))
waited_out w w' h restart (watched k n ws cs s) busy e = absurd (caller_clash (rw s at busy))
waited_out w w' h restart (fired k n ws cs s) busy e = absurd (caller_clash (rw s at busy))
waited_out w w' h restart (waited k p r n ws cs live s) busy e =
    absurd (not_yet k p r n ws cs w' (rw s at e))
waited_out w w' h restart (ended k r n ws cs s) busy e =
    let same : r ≡ restart = ap restart_of (sym (ap (λ (x : Watch). x.caller) s) ∙ busy) in
    subst (λ b. LastWord b w w') same
      (goes_on r (blocked k r) n ws cs w w' s (ended_returns k r n ws cs w' (rw s at e)))

found_none :
    (w w' : Watch) (restart : Bool)
    → Shape w
    → w.caller ≡ idle
    → w.running ≡ none
    → step (call restart) w ≡ some w'
    → LastWord restart w w'
unfolding step
found_none w w' restart (quiet n ws cs s) free empty e =
    goes_on restart idle n ws cs w w' s (rw s at e)
found_none w w' restart (watched k n ws cs s) free empty e =
    absurd (none_ne_some (sym (rw s at empty)))
found_none w w' restart (fired k n ws cs s) free empty e =
    absurd (none_ne_some (sym (rw s at empty)))
found_none w w' restart (waited k p r n ws cs live s) free empty e =
    absurd (caller_clash (sym (rw s at free)))
found_none w w' restart (ended k r n ws cs s) free empty e =
    absurd (caller_clash (sym (rw s at free)))

-- With a caller that makes one call at a time: when its Stop returns, whether it has waited or found
-- nothing to stop, no earlier goroutine is left that could still run its onCancel, so what the caller
-- writes next has the last word; a Start then has its new watcher and nothing else.
pub stop_has_last_word :
    (w w' : Watch) (a : Action) (restart : Bool)
    → Reach w
    → StopReturns w restart a
    → step a w ≡ some w'
    → (w.alive ≡ []) × (w'.alive ≡ after_stop restart w.next) × (w'.writes ≡ w.writes)
stop_has_last_word w w' _ restart reach (waited_for h busy) e =
    waited_out w w' h restart (reach-Shape w reach) busy e
stop_has_last_word w w' _ restart reach (at_once free empty) e =
    found_none w w' restart (reach-Shape w reach) free empty e

-- Steps, one after the other.
unfoldable pub run : List Action → Watch → Option Watch
unfolding step
run [] w = some w
run (a ∷ acts) w = elim (step a w) [ none ↦ none | some v ↦ run acts v ]

closed_step :
    (k : ℕ) (r : Bool) (n : ℕ) (ws cs : List ℕ)
    → elem k cs ≡ false
    → (w' : Watch) × (step returns (none_waited k r n ws cs) ≡ some w')
unfolding step
closed_step k r n ws cs gone = (go_on r (nobody n ws cs), rw (gone, step) refl)

elem-without : (k : ℕ) (cs : List ℕ) → elem k (delete_where (λ j. j == k) cs) ≡ false
unfolding elem
elem-without k [] = refl
elem-without k (c ∷ cs) = ground (arith, elem-without k cs)

-- The steps of a goroutine that has left the map until its `done` is closed.
abbrev Freed : Watch → Type 0
Freed w =
    (acts : List Action) × (v w' : Watch) × (length acts ≤ 2)
    × (run acts w ≡ some v)
    × (step returns v ≡ some w')

closes_last :
    (k : ℕ) (r : Bool) (n : ℕ) (ws cs : List ℕ)
    → (acts : List Action) × (v w' : Watch) × (length acts ≤ 1)
      × (run acts (none_waited k r n ws cs) ≡ some v)
      × (step returns v ≡ some w')
unfolding run elem
closes_last k r n ws cs = elim (Bool-cases (elem k cs)) [
  | inl there ↦
      let rest = delete_where (λ j. j == k) cs in
      let next = closed_step k r n ws rest (elem-without k cs) in
      (closes k ∷ [], none_waited k r n ws rest, next.0, omega arith, rw (there, step) refl, next.1)
  | inr gone ↦
      let next = closed_step k r n ws cs gone in
      ([], none_waited k r n ws cs, next.0, omega arith, refl, next.1)
]

left :
    (k : ℕ) (r : Bool) (n : ℕ) (ws cs : List ℕ)
    → step (leaves k) (one_waited k stopped r n ws cs) ≡ some (none_waited k r n ws (k ∷ cs))
unfolding step
left k r n ws cs = elim (Bool-cases (k == k)) [
  | inl same ↦ rw (same, step) (rw (same, exit) refl)
  | inr other ↦ absurd (ne_of_false k k other refl)
]

written :
    (k : ℕ) (r : Bool) (n : ℕ) (ws cs : List ℕ)
    → step (fires k) (one_waited k firing r n ws cs)
      ≡ some (none_waited k r n (ws ++ k ∷ []) (k ∷ cs))
unfolding step
written k r n ws cs = elim (Bool-cases (k == k)) [
  | inl same ↦ rw (same, step) (rw (same, exit) refl)
  | inr other ↦ absurd (ne_of_false k k other refl)
]

-- One step more in front.
first_then :
    (a : Action) (w u : Watch)
    → step a w ≡ some u
    → (acts : List Action) × (v w' : Watch) × (length acts ≤ 1)
      × (run acts u ≡ some v)
      × (step returns v ≡ some w')
    → Freed w
unfolding run
first_then a w u e (acts, v, w', short, ran, back) =
    (a ∷ acts, v, w', omega arith, rw (e, run) ran, back)

-- With a caller that makes one call at a time: a call that is blocked in Stop can return at once, or
-- after at most two steps of its goroutine.
pub stop_returns :
    (w : Watch) (h : ℕ) (restart : Bool)
    → Reach w
    → w.caller ≡ blocked h restart
    → (acts : List Action) × (v w' : Watch) × (length acts ≤ 2)
      × (run acts w ≡ some v)
      × (step returns v ≡ some w')
stop_returns w h restart reach busy = by_shape (reach-Shape w reach)
  where
    by_shape : Shape w → Freed w
    by_shape (quiet n ws cs s) = absurd (caller_clash (rw s at busy))
    by_shape (watched k n ws cs s) = absurd (caller_clash (rw s at busy))
    by_shape (fired k n ws cs s) = absurd (caller_clash (rw s at busy))
    by_shape (waited k watching r n ws cs live s) = absurd (live refl)
    by_shape (waited k stopped r n ws cs live s) =
        first_then (leaves k) w (none_waited k r n ws (k ∷ cs)) (rw s (left k r n ws cs))
          (closes_last k r n ws (k ∷ cs))
    by_shape (waited k firing r n ws cs live s) =
        first_then (fires k) w (none_waited k r n (ws ++ k ∷ []) (k ∷ cs))
          (rw s (written k r n ws cs)) (closes_last k r n (ws ++ k ∷ []) (k ∷ cs))
    by_shape (ended k r n ws cs s) =
        let (acts, v, w', short, ran, back) = closes_last k r n ws cs in
        (acts, v, w', omega arith, rw s ran, back)
