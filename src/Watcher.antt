-- ===== src/Watcher.antt =====
-- exclusive_lease_watcher.go: the watcher of one topic, as steps of its goroutines and of a caller that
-- makes one call at a time. The topics of a watcher share nothing but the map, so one topic is the
-- whole story.
pub mod OneWatcher
pub mod LastWord
use pgoutbox.Prelude.{
  ℕ, suc, Bool, true, false, not, ◌&&◌, ◌||◌, Option, none, some, List, [], ◌∷◌, ◌++◌, map, elem,
  ◌==◌, number_test, if◌then◌else◌, ◌≡◌,
}
use pgoutbox.Sql.{delete_where, query_row}

-- Where a goroutine is: blocked on its context, cancelled by Stop, or in onCancel because its context
-- ended otherwise.
pub data Phase : Type 0 where
  watching stopped firing : Phase

pub record Handle : Type 0 where
  pub id : ℕ
  pub phase : Phase

-- The caller is between calls, or in Stop, blocked on a handle's `done`; the flag says whether that
-- Stop is the first part of Start.
pub data Caller : Type 0 where
  idle : Caller
  blocked : ℕ → Bool → Caller

-- `running` is the topic's entry of the map. `alive` are the goroutines before their CompareAndDelete,
-- `closing` those after it, which have only `close(done)` left. `writes` are the handles whose
-- onCancel has run.
pub record Watch : Type 0 where
  pub running : Option ℕ
  pub alive : List Handle
  pub closing : List ℕ
  pub next : ℕ
  pub caller : Caller
  pub writes : List ℕ

abbrev pub initial : Watch
initial = record { running = none; alive = []; closing = []; next = 0; caller = idle; writes = [] }

pub data Action : Type 0 where
  call : Bool → Action
  returns : Action
  context_ends leaves fires closes : ℕ → Action

abbrev phase_of : ℕ → List Handle → Option Phase
phase_of h handles = elim (query_row (λ (x : Handle). x.id == h) handles) [
  | none ↦ none
  | some x ↦ some x.phase
]

abbrev with_phase : Phase → ℕ → Handle → Handle
with_phase p h x = if x.id == h then record x { phase = p } else x

abbrev without_handle : ℕ → List Handle → List Handle
without_handle h = delete_where (λ x. x.id == h)

-- CompareAndDelete
abbrev clear : ℕ → Option ℕ → Option ℕ
clear h none = none
clear h (some r) = if r == h then none else some r

-- What follows a Stop that has returned: nothing, or the rest of Start.
abbrev go_on : Bool → Watch → Watch
go_on false w = w
go_on true w = record w {
  running = some w.next;
  alive = record { id = w.next; phase = watching } ∷ w.alive;
  next = suc w.next;
}

-- `handle.cancel`: a context that has ended already keeps its cause.
abbrev cancel : Option Phase → ℕ → List Handle → List Handle
cancel (some watching) h handles = map (with_phase stopped h) handles
cancel _ h handles = handles

-- LoadAndDelete of Stop, and the cancellation.
abbrev stop_running : Bool → Option ℕ → Watch → Watch
stop_running restart none w = go_on restart w
stop_running restart (some h) w = record w {
  running = none;
  alive = cancel (phase_of h w.alive) h w.alive;
  caller = blocked h restart;
}

abbrev is_done : Option Phase → Bool
is_done none = true
is_done (some p) = false

-- The deferred CompareAndDelete. It is one step with the onCancel before it: a Stop in between would find
-- the entry and wait, as one just before does.
abbrev exit : ℕ → Watch → Watch
exit h w = record w {
  running = clear h w.running;
  alive = without_handle h w.alive;
  closing = h ∷ w.closing;
}

-- `<-handle.done` goes on once `done` is closed.
abbrev is_closed : ℕ → Watch → Bool
is_closed h w = is_done (phase_of h w.alive) && not (elem h w.closing)

-- One step, where it is enabled.
unfoldable pub step : Action → Watch → Option Watch
unfolding query_row
step (call restart) w = elim w.caller [
  | idle ↦ some (stop_running restart w.running w)
  | blocked h r ↦ none
]
step returns w = elim w.caller [
  | idle ↦ none
  | blocked h restart ↦
      if is_closed h w then some (go_on restart (record w { caller = idle })) else none
]
step (context_ends h) w = elim (phase_of h w.alive) [
  | some watching ↦ some (record w { alive = map (with_phase firing h) w.alive })
  | _ ↦ none
]
step (leaves h) w = elim (phase_of h w.alive) [ some stopped ↦ some (exit h w) | _ ↦ none ]
step (fires h) w = elim (phase_of h w.alive) [
  | some firing ↦ some (record (exit h w) { writes = w.writes ++ h ∷ [] })
  | _ ↦ none
]
-- The deferred close(done), which comes last.
step (closes h) w =
    if elem h w.closing
    then some (record w { closing = delete_where (λ k. k == h) w.closing })
    else none

-- The states that a run can reach.
pub data Reach : Watch → Type 0 where
  start : Reach initial
  take : (a : Action) (w w' : Watch) → Reach w → step a w ≡ some w' → Reach w'
