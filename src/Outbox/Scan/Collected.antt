-- ===== src/Outbox/Scan/Collected.antt =====
-- The held topics that a scan collects, and the loops that they start.
use mathlib.Core.List.{
  mem-map, mem-cons, not-mem-nil, mem-append, Mem-prop, mem-map_of_mem, mem-cast,
}
use mathlib.Core.Logic.Or
use mathlib.Core.Logic.{∥∥₁_elim}
use mathlib.Core.Bool.{false≢true}
use pgoutbox.Prelude.{
  subst, ℕ, String, ◌≡◌, refl, sym, ap, ◌∙◌, Bool, true, false, Bool-cases, inl, inr, Option, List,
  [], ◌∷◌, ◌++◌, Mem, Option-cases, if◌then◌else◌, ℤ, ◌==◌, text_test, number_test,
}
use pgoutbox.Sql.{coalesce_or}
use pgoutbox.Sql.Keys.{mem_of_query_row, query_row-holds}
use pgoutbox.Db.{Db, Topic, MaintenanceLease}
use pgoutbox.Db.Leases.{
  find_lease, candidate_row, is_positive, get_maintenance_candidate_topics,
  GetMaintenanceCandidateTopicsRow,
}
use pgoutbox.Outbox.{Outbox}
use pgoutbox.Outbox.Claims.Held.{Holds, lease_key}
use pgoutbox.Outbox.Loops.{ManagedTopic, Ttls, start_loop, start_loops, find_loop, new_loop}
use pgoutbox.Outbox.Loops.Reconciled.{topic_of}
use pgoutbox.Outbox.Scan.{Candidates, classify, classify_all}

module _ (ttls : Ttls) {Q : Type 0} (Q_prop : IsProp Q) (mt : ManagedTopic) where
  started_one :
      (t : String) (managed : List ManagedTopic)
      → (Mem mt managed → Q)
      → (mt.topic ≡ t → Q)
      → Mem mt (start_loop ttls t managed)
      → Q
  unfolding start_loop
  started_one t managed old new m = elim (Option-cases (find_loop t managed)) [
    | inl absent ↦
        (let k : Mem mt (managed ++ new_loop ttls t ∷ []) = (rw (absent, start_loop) at m) in
          Or.elim Q_prop (mem-append.0 k) old (λ i.
            Or.elim Q_prop (mem-cons.0 i) (λ e. new (ap topic_of e)) (λ j. absurd (not-mem-nil j))))
    | inr (x, there) ↦ old (rw (there, start_loop) at m)
  ]

  -- A loop is an old one, or of a held topic.
  pub started_held :
      (held : List String) (managed : List ManagedTopic)
      → (Mem mt managed → Q)
      → (Mem mt.topic held → Q)
      → Mem mt (start_loops ttls held managed)
      → Q
  unfolding start_loops
  started_held [] managed old new m = old m
  started_held (t ∷ held) managed old new m =
      started_held held (start_loop ttls t managed)
        (started_one t managed old (λ e. new (mem-cons.1 (Or.inl e))))
        (λ k. new (mem-cons.1 (Or.inr k))) m

module _ (o : Outbox) (db : Db) where
  -- A candidate that the instance holds is held by a lease row.
  abbrev pub Honest : GetMaintenanceCandidateTopicsRow → Type 0
  Honest c = c.held_by_me ≡ true → Holds o.instance_id c.topic db

  candidate_row-Honest :
      (now cutoff : ℕ) (t : Topic) → Honest (candidate_row now cutoff o.instance_id db t)
  unfolding candidate_row
  candidate_row-Honest now cutoff t =
      elim (Option-cases (find_lease t.topic db.maintenance_leases)) [
        | inl absent ↦ rw (absent, candidate_row) (λ e. absurd (false≢true e))
        | inr (l, there) ↦
            rw (there, candidate_row)
              (λ e.
                let topic : l.topic ≡ t.topic =
                  (text_test.same_iff _ _).0
                    (query_row-holds (λ (x : MaintenanceLease). x.topic == t.topic) _ there) in
                let mine : l.holder_id ≡ o.instance_id = (number_test.same_iff _ _).0 e in
                mem-cast
                  (ap (λ k. (t.topic, k)) (sym mine) ∙ ap (λ k. (k, l.holder_id)) (sym topic))
                  (mem-map_of_mem lease_key (mem_of_query_row _ _ there)))
      ]

  abbrev pub AllHeld : List String → Type 0
  AllHeld held = (t : String) → Mem t held → Holds o.instance_id t db

  classify-AllHeld :
      (default_ttl : ℤ) (c : GetMaintenanceCandidateTopicsRow) (cs : Candidates)
      → Honest c
      → AllHeld cs.held
      → AllHeld (classify default_ttl c cs).held
  unfolding classify
  classify-AllHeld default_ttl c cs honest all =
      elim (Bool-cases (is_positive (coalesce_or c.expiration_nanos default_ttl))) [
        | inl positive ↦ rw (positive, classify) (by_holder c.held_by_me refl)
        | inr out ↦ rw (out, classify) all
      ]
    where
      by_holder :
          (b : Bool) → c.held_by_me ≡ b → AllHeld (if b then cs.held ++ c.topic ∷ [] else cs.held)
      by_holder true e t m = Or.elim Mem-prop (mem-append.0 m) (all t) (λ k.
          Or.elim Mem-prop (mem-cons.0 k) (λ q. rw q (honest e)) (λ j. absurd (not-mem-nil j)))
      by_holder false e t m = all t m

  pub classify_all-AllHeld :
      (default_ttl : ℤ) (rows : List GetMaintenanceCandidateTopicsRow) (cs : Candidates)
      → ((c : GetMaintenanceCandidateTopicsRow) → Mem c rows → Honest c)
      → AllHeld cs.held
      → AllHeld (classify_all default_ttl rows cs).held
  unfolding classify_all
  classify_all-AllHeld default_ttl [] cs honest all = all
  classify_all-AllHeld default_ttl (c ∷ rows) cs honest all =
      classify_all-AllHeld default_ttl rows (classify default_ttl c cs)
        (λ x m. honest x (mem-cons.1 (Or.inr m)))
        (classify-AllHeld default_ttl c cs (honest c (mem-cons.1 (Or.inl refl))) all)

  pub candidates-Honest :
      (now cutoff : ℕ) (default_ttl : Option ℤ) (include : List String) (slack : ℕ)
      (c : GetMaintenanceCandidateTopicsRow)
      → Mem c
          (get_maintenance_candidate_topics now cutoff o.instance_id default_ttl include slack db)
      → Honest c
  unfolding get_maintenance_candidate_topics
  candidates-Honest now cutoff default_ttl include slack c m = λ e.
      ∥∥₁_elim (mem-map.0 m) Mem-prop
        (λ (t, _, same). subst Honest same (candidate_row-Honest now cutoff t) e)
