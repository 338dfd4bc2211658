-- ===== src/Subscribe/Pass/Kept.antt =====
-- ProcessMessages never changes the clocks, nor reports an ended context of its own.
use pgoutbox.Prelude.{
  ℕ, String, ◌≡◌, ◌≢◌, refl, ap, ◌∙◌, Option, List, [], arith, length, inl, inr, Option-cases, ◌==◌,
  number_test, text_test,
}
use pgoutbox.Db.{Message}
use pgoutbox.Db.Topics.{GetTopicForUpdateRow, get_topic_for_update}
use pgoutbox.World.{World, Result, err, context_ended, Env}
use pgoutbox.World.Rules.{
  Gives, begin_rule, tx_exec_rule, tx_query_rule, commit_rule, gets_rule, pure_rule, if_rule,
}
use pgoutbox.Outbox.{Outbox, Flusher, get_flusher}
use pgoutbox.Outbox.Access.{check_row, check_exclusive_access_rule}
use pgoutbox.Outbox.Process.Atomic.{process_messages-no_flusher}
use pgoutbox.Outbox.Process.{ProcessOpt, process_messages, process_with, finish_batch, flush_rule}

-- What holds of every result of ProcessMessages.
abbrev pub Plain : {A : Type 0} → Env → Result A → World → Type 0
Plain e r v = (v.env ≡ e) × (r ≢ err context_ended)

check_row-ne :
    (me now : ℕ) (row : Option GetTopicForUpdateRow) → check_row me now row ≢ err context_ended
unfolding check_row
check_row-ne me now row e = ground arith

finish_batch-Plain :
    (f : Flusher) (topic : String) (msgs : List Message) (w : World)
    → Gives (finish_batch f topic msgs) w (Plain w.env)
unfolding finish_batch
finish_batch-Plain f topic msgs w =
    if_rule (length msgs == 0)
      (λ h.
        commit_rule _ (λ c. (refl, λ e. cc)) (λ c _. (refl, λ e. cc))
          (pure_rule [] (refl, λ e. cc)))
      (λ h.
        flush_rule f msgs _ (λ c. (refl, λ e. cc))
          (λ app took.
            tx_exec_rule _ _ (λ c. (refl, λ e. cc))
              (gets_rule _ _ (
                tx_exec_rule _ _ (λ c. (refl, λ e. cc))
                  (commit_rule _ (λ c. (refl, λ e. cc)) (λ c _. (refl, λ e. cc))
                    (pure_rule msgs (refl, λ e. cc)))))))

process_with-Plain :
    (o : Outbox) (f : Flusher) (size : ℕ) (topic : String) (w : World)
    → Gives (process_with o f size topic) w (Plain w.env)
unfolding process_with
process_with-Plain o f size topic w =
    begin_rule _ (λ c. (refl, λ e. cc))
      (check_exclusive_access_rule o topic _ (λ c. (refl, λ e. cc))
        (λ e bad. (
          refl,
          λ p.
              let same : e ≡ context_ended = cc in
              check_row-ne o.instance_id w.now (get_topic_for_update topic w.db)
                (bad ∙ ap err same),
        ))
        (λ pass. gets_rule _ _ (
          tx_query_rule _ _ (λ c. (refl, λ e. cc))
            (record { at = (finish_batch-Plain f topic _ _).at }))))

pub process_messages-Plain :
    (o : Outbox) (opts : List ProcessOpt) (topic : String) (w : World)
    → Gives (process_messages o opts topic) w (Plain w.env)
unfolding process_messages
process_messages-Plain o opts topic w = elim (Option-cases (get_flusher o topic)) [
  | inl e ↦ record { at = rw (process_messages-no_flusher o opts topic w e) (refl, λ p. cc) }
  | inr (f, e) ↦ record { at = rw (e, process_messages) (process_with-Plain o f _ topic w).at }
]
