-- ===== src/Outbox/Loops/Reconciled.antt =====
-- What a tick of the scanner makes of the maintenance loops.
use mathlib.Core.List.{
  mem-map, mem-filter, mem-cons, not-mem-nil, mem-append_left, mem-append_right, mem-map_of_mem,
  map-append, mem-cast, Mem-prop,
}
use mathlib.Core.Logic.{∥∥₁_map}
use mathlib.Core.Logic.Or
use pgoutbox.Prelude.{
  ℕ, String, ◌≡◌, refl, sym, ap, true, false, not, Bool-cases, none, some, inl, inr, List, [], ◌∷◌,
  map, Mem, elem, is_true, Option-cases, ◌==◌, text_test,
}
use pgoutbox.Sql.Keys.{
  UniqueKeys, UniqueKeys-select, UniqueKeys-append_row, query_row-holds, mem_of_query_row,
}
use pgoutbox.Outbox.Loops.{
  ManagedTopic, Ttls, find_ttl, mark, new_loop, find_loop, start_loop, start_loops, reconcile_loops,
  reap_exited_loops,
}

abbrev pub topic_of : ManagedTopic → String
topic_of mt = mt.topic

module _ (ttls : Ttls) where
  start_loop-UniqueKeys :
      (t : String) (managed : List ManagedTopic)
      → UniqueKeys topic_of managed
      → UniqueKeys topic_of (start_loop ttls t managed)
  unfolding start_loop
  start_loop-UniqueKeys t managed u = elim (Option-cases (find_loop t managed)) [
    | inl absent ↦
        rw (absent, start_loop) (UniqueKeys-append_row topic_of managed (new_loop ttls t) u absent)
    | inr (mt, there) ↦ rw (there, start_loop) u
  ]

  mem-start_loop :
      (t : String) (managed : List ManagedTopic) {mt : ManagedTopic}
      → Mem mt managed
      → Mem mt (start_loop ttls t managed)
  unfolding start_loop
  mem-start_loop t managed m = elim (Option-cases (find_loop t managed)) [
    | inl absent ↦ rw (absent, start_loop) (mem-append_left _ m)
    | inr (x, there) ↦ rw (there, start_loop) m
  ]

  start_loops-UniqueKeys :
      (held : List String) (managed : List ManagedTopic)
      → UniqueKeys topic_of managed
      → UniqueKeys topic_of (start_loops ttls held managed)
  unfolding start_loops
  start_loops-UniqueKeys [] managed u = u
  start_loops-UniqueKeys (t ∷ held) managed u =
      start_loops-UniqueKeys held (start_loop ttls t managed) (start_loop-UniqueKeys t managed u)

  mem-start_loops :
      (held : List String) (managed : List ManagedTopic) {mt : ManagedTopic}
      → Mem mt managed
      → Mem mt (start_loops ttls held managed)
  unfolding start_loops
  mem-start_loops [] managed m = m
  mem-start_loops (t ∷ held) managed m =
      mem-start_loops held (start_loop ttls t managed) (mem-start_loop t managed m)

  started :
      (t : String) (managed : List ManagedTopic) → Mem t (map topic_of (start_loop ttls t managed))
  unfolding start_loop
  started t managed = elim (Option-cases (find_loop t managed)) [
    | inl absent ↦
        rw (absent, start_loop)
          (rw (map-append topic_of managed (new_loop ttls t ∷ []))
            (mem-append_right (map topic_of managed) (mem-cons.1 (Or.inl refl))))
    | inr (x, there) ↦
        rw (there, start_loop)
          (mem-cast
            (sym (
              (text_test.same_iff x.topic t).0
                (query_row-holds (λ (mt : ManagedTopic). mt.topic == t) managed there)))
            (mem-map_of_mem topic_of (mem_of_query_row _ managed there)))
  ]

  mem-start_loops_topic :
      (held : List String) (managed : List ManagedTopic) {t : String}
      → Mem t (map topic_of managed)
      → Mem t (map topic_of (start_loops ttls held managed))
  mem-start_loops_topic held managed m =
      mem-map.1 (∥∥₁_map (mem-map.0 m) (λ (a, am, e). (a, mem-start_loops held managed am, e)))

  covers_held :
      (held : List String) (managed : List ManagedTopic) {t : String}
      → Mem t held
      → Mem t (map topic_of (start_loops ttls held managed))
  unfolding start_loops
  covers_held [] managed m = absurd (not-mem-nil m)
  covers_held (x ∷ held) managed m =
      Or.elim Mem-prop (mem-cons.0 m)
        (λ e.
          mem-cast e (mem-start_loops_topic held (start_loop ttls x managed) (started x managed)))
        (λ k. covers_held held (start_loop ttls x managed) k)

  module _ (held : List String) where
    mark_dormant :
        (mt : ManagedTopic)
        → find_ttl mt.topic ttls ≡ none
        → mark ttls held mt ≡ record mt { dormant = true; cancelled = true }
    unfolding mark
    mark_dormant mt e = rw (e, mark) refl

    mark_lost :
        (mt : ManagedTopic) (ttl : ℕ)
        → find_ttl mt.topic ttls ≡ some ttl
        → elem mt.topic held ≡ false
        → mark ttls held mt ≡ record mt { cancelled = true }
    unfolding mark
    mark_lost mt ttl e h = rw (e, mark) (rw h refl)

    mark_kept :
        (mt : ManagedTopic) (ttl : ℕ)
        → find_ttl mt.topic ttls ≡ some ttl
        → elem mt.topic held ≡ true
        → mark ttls held mt ≡ mt
    unfolding mark
    mark_kept mt ttl e h = rw (e, mark) (rw h refl)

    mark-topic : (mt : ManagedTopic) → (mark ttls held mt).topic ≡ mt.topic
    mark-topic mt = elim (Option-cases (find_ttl mt.topic ttls)) [
      | inl e ↦ ap topic_of (mark_dormant mt e)
      | inr (ttl, e) ↦ elim (Bool-cases (elem mt.topic held)) [
        | inl h ↦ ap topic_of (mark_kept mt ttl e h)
        | inr h ↦ ap topic_of (mark_lost mt ttl e h)
      ]
    ]

    pub topics-mark :
        (managed : List ManagedTopic)
        → map topic_of (map (mark ttls held) managed) ≡ map topic_of managed
    topics-mark [] = refl
    topics-mark (mt ∷ managed) = rw (mark-topic mt) (ap (◌∷◌ mt.topic) (topics-mark managed))

    module _ (managed : List ManagedTopic) where
      -- The loop of a topic that is no candidate any more is cancelled as dormant, that of a candidate
      -- which is not held is cancelled only, and the loop of a held candidate stays as it is, the ttl
      -- that it was started with included.
      running_loops :
          (mt : ManagedTopic)
          → Mem mt managed
          → (find_ttl mt.topic ttls ≡ none
              → Mem
                  (record mt { dormant = true; cancelled = true })
                  (reconcile_loops ttls held managed))
            × ((ttl : ℕ)
                → find_ttl mt.topic ttls ≡ some ttl
                → elem mt.topic held ≡ false
                → Mem (record mt { cancelled = true }) (reconcile_loops ttls held managed))
            × ((ttl : ℕ)
                → find_ttl mt.topic ttls ≡ some ttl
                → elem mt.topic held ≡ true
                → Mem mt (reconcile_loops ttls held managed))
      unfolding reconcile_loops
      running_loops mt m =
          let marked : Mem (mark ttls held mt)
              (start_loops ttls held (map (mark ttls held) managed)) =
            mem-start_loops held _ (mem-map_of_mem (mark ttls held) m) in
          (
            (λ e. mem-cast (sym (mark_dormant mt e)) marked),
            (λ ttl e h. mem-cast (sym (mark_lost mt ttl e h)) marked),
            λ ttl e h. mem-cast (sym (mark_kept mt ttl e h)) marked,
          )

    module _ (managed : List ManagedTopic) where
      pub one_loop_per_topic :
          UniqueKeys topic_of managed
          → let after = reconcile_loops ttls held (reap_exited_loops managed) in
            UniqueKeys topic_of after
            × ((t : String) → Mem t held → Mem t (map topic_of after))
            × ((mt : ManagedTopic)
                → Mem mt managed
                → mt.exited ≡ false
                → (find_ttl mt.topic ttls ≡ none
                    → Mem (record mt { dormant = true; cancelled = true }) after)
                  × ((ttl : ℕ)
                      → find_ttl mt.topic ttls ≡ some ttl
                      → elem mt.topic held ≡ false
                      → Mem (record mt { cancelled = true }) after)
                  × ((ttl : ℕ)
                      → find_ttl mt.topic ttls ≡ some ttl
                      → elem mt.topic held ≡ true
                      → Mem mt after))
      unfolding reconcile_loops reap_exited_loops
      one_loop_per_topic u = (
        start_loops-UniqueKeys held _ (
            rw (topics-mark (reap_exited_loops managed))
              (UniqueKeys-select topic_of (λ mt. not mt.exited) managed u)),
        (λ t m. covers_held held _ m),
        λ mt m live.
            running_loops (reap_exited_loops managed) mt
              ((mem-filter (λ (x : ManagedTopic). is_true (not x.exited))).1 (m, rw live refl)),
      )
