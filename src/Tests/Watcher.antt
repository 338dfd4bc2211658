-- ===== src/Tests/Watcher.antt =====
-- The watcher, run: started, cancelled by its context, and stopped while it writes.
use pgoutbox.Prelude.{◌≤◌, ◌≡◌, refl, true, none, some, List, elem, number_test, [], ◌∷◌, length}
use pgoutbox.Watcher.{
  Watch, watching, firing, idle, blocked, Action, call, returns, context_ends, fires, closes, step,
  Reach, start, take, initial,
}
use pgoutbox.Watcher.OneWatcher.{one_watcher}
use pgoutbox.Watcher.LastWord.{after_stop, run, waited_for, stop_has_last_word, stop_returns}

abbrev started : Watch
started = record initial {
  running = some 0;
  alive = record { id = 0; phase = watching } ∷ [];
  next = 1;
}

abbrev writing : Watch
writing = record started { alive = record { id = 0; phase = firing } ∷ [] }

-- A second Start has called Stop.
abbrev stopping : Watch
stopping = record writing { running = none; caller = blocked 0 true }

abbrev written : Watch
written = record stopping { alive = []; closing = 0 ∷ []; writes = 0 ∷ [] }

abbrev closed : Watch
closed = record written { closing = [] }

abbrev restarted : Watch
restarted = record closed {
  running = some 1;
  alive = record { id = 1; phase = watching } ∷ [];
  next = 2;
  caller = idle;
}

reach_stopping : Reach stopping
unfolding step
reach_stopping =
    take (call true) writing stopping
      (take (context_ends 0) started writing (take (call true) initial started start refl) refl)
      refl

reach_written : Reach written
unfolding step
reach_written = take (fires 0) stopping written reach_stopping refl

reach_closed : Reach closed
unfolding step elem
reach_closed = take (closes 0) written closed reach_written refl

last_step : step returns closed ≡ some restarted
unfolding step elem
last_step = refl

-- Before close(done) the Stop does not return.
still_waiting : step returns written ≡ none
unfolding step elem
still_waiting = refl

one_watcher_example : length stopping.alive ≤ 1
one_watcher_example = one_watcher stopping reach_stopping

stop_has_last_word_example :
    (closed.alive ≡ []) × (restarted.alive ≡ after_stop true 1) × (restarted.writes ≡ 0 ∷ [])
stop_has_last_word_example =
    stop_has_last_word closed restarted returns true reach_closed (waited_for 0 refl) last_step

stop_returns_example :
    (acts : List Action) × (v w' : Watch) × (length acts ≤ 2)
    × (run acts stopping ≡ some v)
    × (step returns v ≡ some w')
stop_returns_example = stop_returns stopping 0 true reach_stopping refl
