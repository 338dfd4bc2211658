-- ===== src/Outbox/Process/Atomic.antt =====
-- What one call of ProcessMessages does to the database, on every path.
use pgoutbox.Prelude.{
  ℕ, String, Option-cases, none, some, length, number_test, empty_of_length, nonempty_of_length,
  ◌==◌, List, [], ◌∷◌, ◌++◌, map, ◌≡◌, ◌⊎◌, inl, inr, refl, ◌≢◌,
}
use pgoutbox.Db.{Db, Message, AppRow}
use pgoutbox.Db.Messages.{acquire_messages_by_topic, delete_messages_by_ids}
use pgoutbox.Db.Topics.{bump_topic_activity_if_stale, get_topic_for_update}
use pgoutbox.World.{World, Result, ok, err, Error, raise, no_flusher, rest}
use pgoutbox.World.Rules.{
  Gives, HasLost, HasLost-first, HasLost-later_n, later_n, begin_rule, tx_exec_rule, tx_query_rule,
  commit_rule, gets_rule, pure_rule, if_rule,
}
use pgoutbox.Outbox.{Outbox, Flusher, flushed, nop_flusher, get_flusher}
use pgoutbox.Outbox.Access.{check_row, check_exclusive_access_rule}
use pgoutbox.Outbox.Process.{
  ProcessOpt, process_with, process_messages, apply_process_opts, default_batch_size, finish_batch,
  flush_rule,
}

-- What a flushed batch leaves of the database.
abbrev pub after_batch : ℕ → String → List Message → List AppRow → Db → Db
after_batch now topic msgs app db =
    bump_topic_activity_if_stale now topic
      (delete_messages_by_ids topic (map (λ (x : Message). x.id) msgs) (record db { app = app }))

module _ (o : Outbox) (f : Flusher) (size : ℕ) (topic : String) (w : World) where
  abbrev pub access : Result (Unit {0})
  access = check_row o.instance_id w.now (get_topic_for_update topic w.db)

  abbrev pub batch : List Message
  batch = acquire_messages_by_topic w.locked_ids topic (some size) w.db

  -- The ways in which a call can end: its result and the world that it leaves.
  pub data Ends (r : Result (List Message)) (w' : World) : Type 0 where
    stopped : (e : Error) → r ≡ err e → w'.db ≡ w.db → w'.delivered ≡ w.delivered → Ends r w'
    idle :
        access ≡ ok tt
        → batch ≡ []
        → r ≡ ok []
        → w'.db ≡ w.db
        → w'.delivered ≡ w.delivered
        → Ends r w'
    undone :
        (app : List AppRow) (e : Error)
        → access ≡ ok tt
        → f batch w.db.app ≡ flushed app
        → r ≡ err e
        → w'.db ≡ w.db
        → w'.delivered ≡ w.delivered ++ batch ∷ []
        → Ends r w'
    done :
        (app : List AppRow)
        → access ≡ ok tt
        → batch ≢ []
        → f batch w.db.app ≡ flushed app
        → (r ≡ ok batch) ⊎ ((e : Error) × (r ≡ err e) × HasLost w.answers)
        → w'.db ≡ after_batch w.db_now topic batch app w.db
        → w'.delivered ≡ w.delivered ++ batch ∷ []
        → Ends r w'

  abbrev locked_batch : World
  locked_batch = rest (rest (rest (record w { work = w.db })))

  -- The block from the flush on.
  finish_batch-Ends : access ≡ ok tt → Gives (finish_batch f topic batch) locked_batch Ends
  unfolding finish_batch
  finish_batch-Ends pass =
      if_rule (length batch == 0)
        (λ h.
          commit_rule _ (λ c. stopped _ refl refl refl) (λ c _. stopped _ refl refl refl)
            (pure_rule [] (idle pass (empty_of_length batch h) refl refl refl)))
        (λ h.
          flush_rule f batch _ (λ c. stopped _ refl refl refl)
            (λ app took.
              tx_exec_rule _ _ (λ c. undone app _ pass took refl refl refl)
                (gets_rule _ _ (
                  tx_exec_rule _ _ (λ c. undone app _ pass took refl refl refl)
                    (commit_rule _ (λ c. undone app _ pass took refl refl refl)
                      (λ c l.
                        done app pass (nonempty_of_length batch h) took
                          (inr (
                            _,
                            refl,
                            HasLost-later_n 5 w.answers (HasLost-first (later_n 5 w.answers) l),
                          ))
                          refl refl)
                      (pure_rule batch
                        (done app pass (nonempty_of_length batch h) took (inl refl) refl refl)))))))

  pub process_with-Ends : Gives (process_with o f size topic) w Ends
  unfolding process_with
  process_with-Ends =
      begin_rule _ (λ c. stopped _ refl refl refl)
        (check_exclusive_access_rule o topic _ (λ c. stopped _ refl refl refl)
          (λ e _. stopped _ refl refl refl)
          (λ pass.
            gets_rule _ _
              (tx_query_rule _ _ (λ c. stopped _ refl refl refl) (finish_batch-Ends pass))))

module _ (o : Outbox) (opts : List ProcessOpt) (topic : String) (w : World) where
  abbrev pub size_of : ℕ
  size_of = apply_process_opts default_batch_size opts

  flusher-Ends :
      (f : Flusher)
      → get_flusher o topic ≡ some f
      → Gives (process_messages o opts topic) w (Ends o f size_of topic w)
  unfolding process_messages
  flusher-Ends f e = record {
    at = rw (e, process_messages) (process_with-Ends o f size_of topic w).at;
  }

  -- A topic without a flusher is refused before the database is called.
  pub process_messages-no_flusher :
      get_flusher o topic ≡ none → process_messages o opts topic w ≡ (err no_flusher, w)
  unfolding process_messages raise
  process_messages-no_flusher e = rw (e, process_messages)

  -- Every call of ProcessMessages ends in one of the ways.
  pub process_messages-Ends :
      (f : Flusher) × Gives (process_messages o opts topic) w (Ends o f size_of topic w)
  process_messages-Ends = elim (Option-cases (get_flusher o topic)) [
    | inl e ↦
        (nop_flusher, record { at = rw (process_messages-no_flusher e) (stopped _ refl refl refl) })
    | inr (f, e) ↦ (f, flusher-Ends f e)
  ]
