-- ===== src/Db/IsWellFormed/Inserted.antt =====
-- The insert of messages, trigger included, keeps the constraints.
use mathlib.Core.List.{
  mem-append, mem-cons, not-mem-nil, map-append, Nodup-append, Nodup-cons, Nodup-nil,
  mem-append_left, mem-append_right, mem-cast, Mem-prop, mem-map,
}
use mathlib.Core.Logic.{∥∥₁_elim}
use mathlib.Core.Logic.Or
use mathlib.Core.HLevel.{⊥_prop}
use native.Mathlib.Bridge.{le_prop}
use pgoutbox.Prelude.{
  ℕ, suc, ◌+◌, ◌<◌, ◌≤◌, ◌≡◌, refl, sym, ◌∙◌, ap, String, Bool, true, false, ◌||◌, inl, inr, none,
  List, [], ◌∷◌, ◌++◌, map, Mem, Nodup, arith, elem, elem_of_mem, mem_of_elem, length, Bool-cases,
  text_test, number_test,
}
use pgoutbox.Sql.Keys.{map-update_where}
use pgoutbox.Db.{Db, Message, Topic}
use pgoutbox.Db.Messages.{InsertMessageParams, number_rows}
use pgoutbox.Db.Topics.{new_topics, topics_insert_trigger_fn, insert_message, new_topic}
use pgoutbox.Db.IsWellFormed.{IsWellFormed, topic_names}

abbrev ids : List Message → List ℕ
ids = map (λ (m : Message). m.id)

module _ (now : ℕ) where
  -- The ids of a copy count up from the sequence.
  pub number_rows-above :
      (id k : ℕ) (params : List InsertMessageParams)
      → Mem k (ids (number_rows id now params))
      → id ≤ k
  unfolding number_rows
  number_rows-above id k [] m = absurd (not-mem-nil m)
  number_rows-above id k (p ∷ ps) m =
      Or.elim le_prop (mem-cons.0 m) (λ e. omega arith)
        (λ h. let ih = number_rows-above (suc id) k ps h in omega arith)

  number_rows-below :
      (id : ℕ) (params : List InsertMessageParams) (m : Message)
      → Mem m (number_rows id now params)
      → m.id < id + length params
  unfolding number_rows
  number_rows-below id [] m h = absurd (not-mem-nil h)
  number_rows-below id (p ∷ ps) m h =
      Or.elim le_prop (mem-cons.0 h) (λ e. rw (ap (λ (x : Message). x.id) e) (omega arith))
        (λ h. let ih = number_rows-below (suc id) ps m h in omega arith)

  number_rows-topics :
      (id : ℕ) (params : List InsertMessageParams) (m : Message)
      → Mem m (number_rows id now params)
      → Mem m.topic (map (λ (p : InsertMessageParams). p.topic) params)
  unfolding number_rows
  number_rows-topics id [] m h = absurd (not-mem-nil h)
  number_rows-topics id (p ∷ ps) m h =
      Or.elim Mem-prop (mem-cons.0 h) (λ e. mem-cons.1 (Or.inl (ap (λ (x : Message). x.topic) e)))
        (λ k. mem-cons.1 (Or.inr (number_rows-topics (suc id) ps m k)))

  number_rows-UniqueKeys :
      (id : ℕ) (params : List InsertMessageParams) → Nodup (ids (number_rows id now params))
  unfolding number_rows
  number_rows-UniqueKeys id [] = Nodup-nil
  number_rows-UniqueKeys id (p ∷ ps) = Nodup-cons.1 (
    (λ m. let h = number_rows-above (suc id) id ps m in absurd (omega arith)),
    number_rows-UniqueKeys (suc id) ps,
  )

or-false : (a b : Bool) → a || b ≡ false → (a ≡ false) × (b ≡ false)
or-false false b h = (refl, h)
or-false true b h = cc

clash : {b : Bool} → b ≡ true → b ≡ false → ⊥
clash p q = let e = sym p ∙ q in cc

module _ (known : List Topic) where
  new_topics-fresh :
      (ns : List String) {n : String} → Mem n (new_topics known ns) → ¬ Mem n (topic_names known)
  unfolding new_topics
  new_topics-fresh [] m k = not-mem-nil m
  new_topics-fresh (x ∷ ns) m k =
      elim (Bool-cases (elem x (topic_names known) || elem x (new_topics known ns))) [
        | inl seen ↦ new_topics-fresh ns (rw (seen, new_topics) at m) k
        | inr new ↦
            Or.elim ⊥_prop (mem-cons.0 (rw (new, new_topics) at m))
              (λ e.
                clash (elem_of_mem (topic_names known) (mem-cast (sym e) k)) (or-false _ _ new).0)
              (λ h. new_topics-fresh ns h k)
      ]

  new_topics-UniqueKeys : (ns : List String) → Nodup (new_topics known ns)
  unfolding new_topics
  new_topics-UniqueKeys [] = Nodup-nil
  new_topics-UniqueKeys (x ∷ ns) =
      elim (Bool-cases (elem x (topic_names known) || elem x (new_topics known ns))) [
        | inl seen ↦ rw (seen, new_topics) (new_topics-UniqueKeys ns)
        | inr new ↦
            rw (new, new_topics)
              (Nodup-cons.1 (
                (λ m. clash (elem_of_mem (new_topics known ns) m) (or-false _ _ new).1),
                new_topics-UniqueKeys ns,
              ))
      ]

  abbrev covered : List String → List String
  covered ns = topic_names known ++ new_topics known ns

  covered-more :
      (x : String) (ns : List String) {n : String} → Mem n (covered ns) → Mem n (covered (x ∷ ns))
  unfolding new_topics
  covered-more x ns m =
      elim (Bool-cases (elem x (topic_names known) || elem x (new_topics known ns))) [
        | inl seen ↦ rw (seen, new_topics) m
        | inr new ↦
            rw (new, new_topics)
              (Or.elim Mem-prop (mem-append.0 m) (λ h. mem-append_left _ h)
                (λ h. mem-append_right (topic_names known) (mem-cons.1 (Or.inr h))))
      ]

  covered-first : (x : String) (ns : List String) → Mem x (covered (x ∷ ns))
  unfolding new_topics
  covered-first x ns = elim (Bool-cases (elem x (topic_names known))) [
    | inl old ↦ mem-append_left _ (mem_of_elem x (topic_names known) old)
    | inr fresh ↦ elim (Bool-cases (elem x (new_topics known ns))) [
      | inl twice ↦
          rw (fresh, new_topics)
            (rw twice
              (mem-append_right (topic_names known) (mem_of_elem x (new_topics known ns) twice)))
      | inr once ↦
          rw (fresh, new_topics)
            (rw once (mem-append_right (topic_names known) (mem-cons.1 (Or.inl refl))))
    ]
  ]

  -- Each inserted topic has a row afterwards.
  new_topics-cover : (ns : List String) {n : String} → Mem n ns → Mem n (covered ns)
  new_topics-cover [] m = absurd (not-mem-nil m)
  new_topics-cover (x ∷ ns) {n} m =
      Or.elim Mem-prop (mem-cons.0 m) (λ e. mem-cast e (covered-first x ns))
        (λ h. covered-more x ns (new_topics-cover ns h))

names-new_topic :
    (now : ℕ) (ns : List String) → topic_names (map (λ n. new_topic n none now) ns) ≡ ns
names-new_topic now [] = refl
names-new_topic now (n ∷ ns) = ap (◌∷◌ n) (names-new_topic now ns)

module _ (db : Db) (v : IsWellFormed db) (locked : String → Bool) (now : ℕ)
    (params : List InsertMessageParams) where
  abbrev rows : List Message
  rows = number_rows db.next_id now params

  abbrev param_topics : List String
  param_topics = map (λ (p : InsertMessageParams). p.topic) params

  insert_message-names :
      topic_names (insert_message locked now params db).topics ≡ covered db.topics param_topics
  unfolding insert_message topics_insert_trigger_fn
  insert_message-names =
      map-append (λ (t : Topic). t.topic) _ _
      ∙ ap
          (λ ns.
            ns ++ topic_names (map (λ n. new_topic n none now) (new_topics db.topics param_topics)))
          (map-update_where (λ (t : Topic). t.topic) _ _ db.topics (λ t. refl))
      ∙ ap (◌++◌ (topic_names db.topics)) (names-new_topic now (new_topics db.topics param_topics))

  -- InsertMessage with its trigger keeps the constraints: the new ids are new, each topic has exactly
  -- one row, and each new message has its topic's row.
  pub insert_message-IsWellFormed : IsWellFormed (insert_message locked now params db)
  unfolding insert_message topics_insert_trigger_fn
  insert_message-IsWellFormed = record {
    message_ids = rw (map-append (λ (m : Message). m.id) db.messages rows) (
        Nodup-append.1 (
          v.message_ids,
          number_rows-UniqueKeys now db.next_id params,
          λ k m h.
              let low = number_rows-above now db.next_id k params h in
              ∥∥₁_elim (mem-map.0 m) ⊥_prop
                (λ (a, am, e). let b = v.ids_below a am in absurd (omega arith)),
        ));
    ids_below = λ m h.
        Or.elim le_prop (mem-append.0 h) (λ old. let b = v.ids_below m old in omega arith)
          (λ new. number_rows-below now db.next_id params m new);
    topic_keys = rw insert_message-names (
        Nodup-append.1 (
          v.topic_keys,
          new_topics-UniqueKeys db.topics param_topics,
          λ n m h. new_topics-fresh db.topics param_topics h m,
        ));
    session_keys = v.session_keys;
    lease_keys = v.lease_keys;
    registered = λ m h. rw insert_message-names (
        Or.elim Mem-prop (mem-append.0 h) (λ old. mem-append_left _ (v.registered m old))
          (λ new.
            new_topics-cover db.topics param_topics
              (number_rows-topics now db.next_id params m new)));
  }
