-- ===== src/Construct/Expirations.antt =====
-- The expirations that NewOutbox writes to the topics table.
use mathlib.Core.Option
use pgoutbox.Prelude.{
  ℕ, Bool, String, ◌≡◌, ◌≢◌, refl, sym, ap, ◌∙◌, true, false, Option, none, some, List, [], ◌∷◌,
  map, Mem, Nodup, ◌==◌, text_test, if◌then◌else◌, ℤ, Bool-cases, inl, inr, ==_refl, ==-false,
  ne_of_false,
}
use mathlib.Core.List.{Mem-prop, mem-cons, not-mem-nil, Nodup-nil, Nodup-cons}
use mathlib.Core.Logic.Or
use pgoutbox.Sql.{coalesce}
use pgoutbox.Sql.Keys.{
  query_row-update_self, query_row-update_other, query_row-append_row, query_row-append_other,
}
use pgoutbox.Db.{Db, Topic}
use pgoutbox.Db.Topics.{find_topic, insert_topic_if_absent, new_topic}
use pgoutbox.World.{World, ok, pure, logged, catch, ◌>>=◌}
use pgoutbox.Construct.{
  OutboxOpt, OutboxImplOpts, default_opts, apply_outbox_opt, apply_outbox_opts, with_schema,
  with_auto_migrate, with_topic_expiration, with_default_expiration, with_logger, with_pub_sub,
  ensure_topic_rows, positive_ttl, set_expiration,
}

-- The row of a topic after InsertTopicIfAbsent: an expiration that it has already is kept.
abbrev pub registered : ℕ → String → Option ℤ → Option Topic → Topic
registered now topic e none = new_topic topic e now
registered now topic e (some t) = record t { expiration_nanos = coalesce t.expiration_nanos e }

module _ (now : ℕ) (topic : String) (e : Option ℤ) (db : Db) where
  insert_self :
      (row : Option Topic)
      → find_topic topic db.topics ≡ row
      → find_topic topic (insert_topic_if_absent now topic e db).topics
        ≡ some (registered now topic e row)
  unfolding insert_topic_if_absent
  insert_self none absent =
      rw (absent, insert_topic_if_absent)
        (query_row-append_row (λ (t : Topic). t.topic == topic) db.topics (new_topic topic e now)
          absent (==_refl topic))
  insert_self (some t) there =
      rw (there, insert_topic_if_absent)
        (query_row-update_self (λ (x : Topic). x.topic == topic) _ db.topics (λ x h. h)
          ∙ ap (Option.map _) there)

  insert-other :
      (t : String)
      → topic ≢ t
      → find_topic t (insert_topic_if_absent now topic e db).topics ≡ find_topic t db.topics
  unfolding insert_topic_if_absent
  insert-other t differs = by_row (find_topic topic db.topics) refl
    where
      elsewhere : (r : Topic) → (r.topic == topic) ≡ true → (r.topic == t) ≡ false
      elsewhere r h =
          ==-false r.topic t (λ q. differs (sym ((text_test.same_iff r.topic topic).0 h) ∙ q))

      by_row :
          (row : Option Topic)
          → find_topic topic db.topics ≡ row
          → find_topic t (insert_topic_if_absent now topic e db).topics ≡ find_topic t db.topics
      by_row none absent =
          rw (absent, insert_topic_if_absent)
            (query_row-append_other (λ (x : Topic). x.topic == t) db.topics (new_topic topic e now)
              (==-false topic t differs))
      by_row (some x) there =
          rw (there, insert_topic_if_absent)
            (query_row-update_other (λ (x : Topic). x.topic == t) (λ (x : Topic). x.topic == topic)
              _ db.topics elsewhere elsewhere)

abbrev pub keys : List (String × ℤ) → List String
keys = map (λ (e : String × ℤ). e.0)

unfoldable pub find_expiration : String → List (String × ℤ) → Option ℤ
find_expiration topic [] = none
find_expiration topic ((t, ttl) ∷ es) = if t == topic then some ttl else find_expiration topic es

-- The topics table after the loop over the expirations, if the database answers.
unfoldable pub publish : ℕ → List (String × ℤ) → Db → Db
publish now [] db = db
publish now ((topic, ttl) ∷ es) db =
    publish now es (insert_topic_if_absent now topic (positive_ttl ttl) db)

abbrev pub answering : World → World
answering w = record w { answers = [] }

pub ensure_topic_rows-publish :
    (es : List (String × ℤ)) (w : World)
    → ensure_topic_rows es (answering w)
      ≡ (ok tt, record (answering w) { db = publish w.db_now es w.db })
unfolding ensure_topic_rows publish pure ◌>>=◌ catch logged
ensure_topic_rows-publish [] w = refl
ensure_topic_rows-publish ((topic, ttl) ∷ es) w =
    ensure_topic_rows-publish es
      (record w { db = insert_topic_if_absent w.db_now topic (positive_ttl ttl) w.db })

module _ (now : ℕ) (topic : String) where
  publish-other :
      (es : List (String × ℤ)) (db : Db)
      → ¬ Mem topic (keys es)
      → find_topic topic (publish now es db).topics ≡ find_topic topic db.topics
  unfolding publish
  publish-other [] db absent = refl
  publish-other ((t, ttl) ∷ es) db absent =
      publish-other es (insert_topic_if_absent now t (positive_ttl ttl) db)
        (λ m. absent (mem-cons.1 (Or.inr m)))
      ∙ insert-other now t (positive_ttl ttl) db topic (λ e. absent (mem-cons.1 (Or.inl (sym e))))

  pub publish_self :
      (es : List (String × ℤ)) (ttl : ℤ) (db : Db)
      → Nodup (keys es)
      → find_expiration topic es ≡ some ttl
      → find_topic topic (publish now es db).topics
        ≡ some (registered now topic (positive_ttl ttl) (find_topic topic db.topics))
  unfolding publish find_expiration
  publish_self [] ttl db u h = cc
  publish_self ((t, x) ∷ es) ttl db u h = elim (Bool-cases (t == topic)) [
    | inl p ↦
        let same : t ≡ topic = (text_test.same_iff t topic).0 p in
        let value : x ≡ ttl = Option.some-injective _ _ (rw (p, find_expiration) at h) in
        publish-other es _ (rw same at (Nodup-cons.0 u).0)
        ∙ (rw (same, value)
            (insert_self now topic (positive_ttl ttl) db (find_topic topic db.topics) refl))
    | inr p ↦
        publish_self es ttl _ (Nodup-cons.0 u).1 (rw (p, find_expiration) at h)
        ∙ ap (λ row. some (registered now topic (positive_ttl ttl) row))
            (insert-other now t (positive_ttl x) db topic (ne_of_false t topic p))
  ]

mem-keys-set :
    (topic : String) (ttl : ℤ) (es : List (String × ℤ)) {t : String}
    → topic ≢ t
    → Mem t (keys (set_expiration topic ttl es))
    → Mem t (keys es)
unfolding set_expiration
mem-keys-set topic ttl [] differs m =
    Or.elim Mem-prop (mem-cons.0 m) (λ e. absurd (differs (sym e))) (λ k. absurd (not-mem-nil k))
mem-keys-set topic ttl ((x, y) ∷ es) differs m = elim (Bool-cases (x == topic)) [
  | inl p ↦
      let same : x ≡ topic = (text_test.same_iff x topic).0 p in
      Or.elim Mem-prop (mem-cons.0 (rw (p, set_expiration) at m)) (λ e. absurd (differs (sym e)))
        (λ k. mem-cons.1 (Or.inr k))
  | inr p ↦
      Or.elim Mem-prop (mem-cons.0 (rw (p, set_expiration) at m)) (λ e. mem-cons.1 (Or.inl e))
        (λ k. mem-cons.1 (Or.inr (mem-keys-set topic ttl es differs k)))
]

set_expiration-Nodup :
    (topic : String) (ttl : ℤ) (es : List (String × ℤ))
    → Nodup (keys es)
    → Nodup (keys (set_expiration topic ttl es))
unfolding set_expiration
set_expiration-Nodup topic ttl [] u = Nodup-cons.1 (not-mem-nil, u)
set_expiration-Nodup topic ttl ((t, x) ∷ es) u = elim (Bool-cases (t == topic)) [
  | inl p ↦ let same : t ≡ topic = (text_test.same_iff t topic).0 p in rw p (rw same at u)
  | inr p ↦ rw p (
      Nodup-cons.1 (
        (λ m.
            (Nodup-cons.0 u).0 (mem-keys-set topic ttl es (λ e. ne_of_false t topic p (sym e)) m)),
        set_expiration-Nodup topic ttl es (Nodup-cons.0 u).1,
      ))
]

apply_outbox_opts-Nodup :
    (fs : List OutboxOpt) (opts : OutboxImplOpts)
    → Nodup (keys opts.expirations)
    → Nodup (keys (apply_outbox_opts opts fs).expirations)
unfolding apply_outbox_opts apply_outbox_opt
apply_outbox_opts-Nodup [] opts u = u
apply_outbox_opts-Nodup (with_schema _ ∷ fs) opts u = apply_outbox_opts-Nodup fs _ u
apply_outbox_opts-Nodup (with_auto_migrate _ ∷ fs) opts u = apply_outbox_opts-Nodup fs _ u
apply_outbox_opts-Nodup (with_topic_expiration topic ttl ∷ fs) opts u =
    apply_outbox_opts-Nodup fs _ (set_expiration-Nodup topic ttl opts.expirations u)
apply_outbox_opts-Nodup (with_default_expiration _ ∷ fs) opts u = apply_outbox_opts-Nodup fs _ u
apply_outbox_opts-Nodup (with_logger ∷ fs) opts u = apply_outbox_opts-Nodup fs opts u
apply_outbox_opts-Nodup (with_pub_sub _ ∷ fs) opts u = apply_outbox_opts-Nodup fs _ u

-- The options give each topic one expiration.
pub expirations-Nodup :
    (fs : List OutboxOpt) → Nodup (keys (apply_outbox_opts default_opts fs).expirations)
expirations-Nodup fs = apply_outbox_opts-Nodup fs default_opts Nodup-nil

-- The expiration that one option gives a topic.
abbrev given_by : String → OutboxOpt → Option ℤ
given_by topic (with_topic_expiration t ttl) = if t == topic then some ttl else none
given_by topic _ = none

-- The expiration of the last WithTopicExpiration for a topic.
unfoldable pub last_given : String → List OutboxOpt → Option ℤ
last_given topic [] = none
last_given topic (f ∷ fs) = coalesce (last_given topic fs) (given_by topic f)

hidden :
    (b : Bool) (x y z : Option ℤ) → (if b then x else z) ≡ (if b then x else if b then y else z)
hidden true x y z = refl
hidden false x y z = refl

pick :
    (b : Bool) (ttl : ℤ) (y : Option ℤ)
    → (if b then some ttl else y) ≡ coalesce (if b then some ttl else none) y
pick true ttl y = refl
pick false ttl y = refl

coalesce-coalesce : (x y z : Option ℤ) → coalesce x (coalesce y z) ≡ coalesce (coalesce x y) z
coalesce-coalesce none y z = refl
coalesce-coalesce (some a) y z = refl

find_expiration-set :
    (topic t : String) (ttl : ℤ) (es : List (String × ℤ))
    → find_expiration topic (set_expiration t ttl es)
      ≡ (if t == topic then some ttl else find_expiration topic es)
unfolding find_expiration set_expiration
find_expiration-set topic t ttl [] = refl
find_expiration-set topic t ttl ((x, y) ∷ es) = elim (Bool-cases (x == t)) [
  | inl p ↦
      let same : x ≡ t = (text_test.same_iff x t).0 p in
      rw (p, same) (hidden (t == topic) (some ttl) (some y) (find_expiration topic es))
  | inr p ↦ elim (Bool-cases (x == topic)) [
    | inl k ↦
        let here : x ≡ topic = (text_test.same_iff x topic).0 k in
        let other : (t == topic) ≡ false =
          ==-false t topic (λ e. ne_of_false x t p (here ∙ sym e)) in
        rw (p, k, other) refl
    | inr k ↦ rw (p, k) (find_expiration-set topic t ttl es)
  ]
]

find_expiration-opt :
    (topic : String) (f : OutboxOpt) (opts : OutboxImplOpts)
    → find_expiration topic (apply_outbox_opt opts f).expirations
      ≡ coalesce (given_by topic f) (find_expiration topic opts.expirations)
unfolding apply_outbox_opt
find_expiration-opt topic (with_topic_expiration t ttl) opts =
    find_expiration-set topic t ttl opts.expirations
    ∙ pick (t == topic) ttl (find_expiration topic opts.expirations)
find_expiration-opt topic (with_schema s) opts = refl
find_expiration-opt topic (with_auto_migrate b) opts = refl
find_expiration-opt topic (with_default_expiration d) opts = refl
find_expiration-opt topic with_logger opts = refl
find_expiration-opt topic (with_pub_sub k) opts = refl

-- What is found after the options is what the last of them gave, or what was there.
pub find_expiration-given :
    (topic : String) (fs : List OutboxOpt) (opts : OutboxImplOpts)
    → find_expiration topic (apply_outbox_opts opts fs).expirations
      ≡ coalesce (last_given topic fs) (find_expiration topic opts.expirations)
unfolding apply_outbox_opts last_given
find_expiration-given topic [] opts = refl
find_expiration-given topic (f ∷ fs) opts =
    find_expiration-given topic fs (apply_outbox_opt opts f)
    ∙ ap (coalesce (last_given topic fs)) (find_expiration-opt topic f opts)
    ∙ coalesce-coalesce (last_given topic fs) _ _
