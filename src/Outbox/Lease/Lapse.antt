-- ===== src/Outbox/Lease/Lapse.antt =====
-- How an exclusive lease ends: the release and the grace period.
use pgoutbox.Prelude.{
  ℕ, ◌+◌, ◌≤◌, String, ◌≡◌, ◌≢◌, refl, sym, ◌∙◌, ap, Bool, true, false, Option, none, some, List,
  arith, ◌==◌, ==_refl, number_test, text_test, if◌then◌else◌, ◌&&◌,
}
use mathlib.Core.Option
use pgoutbox.Sql.Keys.{query_row-update_where, query_row-holds}
use pgoutbox.Db.{Db, Topic, ConsumerSession}
use pgoutbox.Db.Topics.{
  get_topic_for_update, find_topic, joined_row, renew_topic_exclusive_consumer, is_holder,
}
use pgoutbox.World.{
  World, err, exclusive_lease_required, works, answer, ◌>>=◌, logged, catch, pool_exec, pure,
}
use pgoutbox.World.Rules.{catch_pool_exec_rule}
use pgoutbox.Outbox.{Outbox}
use pgoutbox.Outbox.Access.{check_row}
use pgoutbox.Outbox.Lease.{expire_exclusive_lease_after_grace, expire_lease_if_watcher_orphaned}
use pgoutbox.Outbox.Lease.Row.{lease_row}
use pgoutbox.Outbox.Lease.Exclusion.{lapsed_required}

-- A renewal of the row of a topic.
abbrev renewed : String → ℕ → Option ℕ → Topic → Topic
renewed topic me expires t =
    if (t.topic == topic && is_holder me t.exclusive_consumer_id)
    then record t { exclusive_consumer_expires_at = expires }
    else t

find_topic-renew :
    (topic : String) (me : ℕ) (expires : Option ℕ) (db : Db)
    → find_topic topic (renew_topic_exclusive_consumer topic me expires db).topics
      ≡ Option.map (renewed topic me expires) (find_topic topic db.topics)
unfolding renew_topic_exclusive_consumer
find_topic-renew topic me expires db =
    query_row-update_where (λ (t : Topic). t.topic == topic) _
      (λ t. record t { exclusive_consumer_expires_at = expires }) db.topics (λ r. refl)

-- The holder's renewal sets the expiry, whatever the sessions say then or later.
pub renew-holder :
    (topic : String) (me expires : ℕ) (db : Db) (t : Topic) (sessions : List ConsumerSession)
    → find_topic topic db.topics ≡ some t
    → t.exclusive_consumer_id ≡ some me
    → get_topic_for_update topic
        (record (renew_topic_exclusive_consumer topic me (some expires) db) {
          consumer_sessions = sessions;
        })
      ≡ some (lease_row me expires)
unfolding get_topic_for_update joined_row
renew-holder topic me expires db t sessions there mine =
    let named : (t.topic == topic) ≡ true =
      query_row-holds (λ (x : Topic). x.topic == topic) db.topics there in
    let found : find_topic topic (renew_topic_exclusive_consumer topic me (some expires) db).topics
        ≡ some (renewed topic me (some expires) t) =
      find_topic-renew topic me (some expires) db
      ∙ ap (Option.map (renewed topic me (some expires))) there in
    rw (found, get_topic_for_update) (rw (named) (rw mine (rw (==_refl me) refl)))

-- A renewal by another instance than the holder changes nothing for the topic.
pub renew-other :
    (topic : String) (me : ℕ) (expires : Option ℕ) (db : Db) (t : Topic)
    → find_topic topic db.topics ≡ some t
    → t.exclusive_consumer_id ≢ some me
    → find_topic topic (renew_topic_exclusive_consumer topic me expires db).topics ≡ some t
renew-other topic me expires db t there other =
    find_topic-renew topic me expires db
    ∙ ap (Option.map (renewed topic me expires)) there
    ∙ ap some (by_holder t.exclusive_consumer_id refl)
  where
    by_holder : (c : Option ℕ) → t.exclusive_consumer_id ≡ c → renewed topic me expires t ≡ t
    by_holder none e = ground (arith, e)
    by_holder (some c) e = ground (arith, e, other)

-- Once its answer has come, the grace-period write makes the holder's lease end one lease duration
-- later, whatever heartbeats arrive: from then on no instance passes the access check.
pub grace_lapses :
    (o : Outbox) (topic : String) (w : World) (t : Topic) (sessions : List ConsumerSession)
    (b later : ℕ)
    → find_topic topic w.db.topics ≡ some t
    → t.exclusive_consumer_id ≡ some o.instance_id
    → answer w ≡ works
    → w.now + w.exclusive_lease_duration ≤ later
    → check_row b later (
        get_topic_for_update topic (record (expire_exclusive_lease_after_grace o topic w).1.db {
          consumer_sessions = sessions;
        }))
      ≡ err exclusive_lease_required
unfolding expire_exclusive_lease_after_grace logged catch pool_exec ◌>>=◌
grace_lapses o topic w t sessions b later there mine answered late =
    rw (answered, expire_exclusive_lease_after_grace)
      (rw
        (renew-holder topic o.instance_id (w.now + w.exclusive_lease_duration) w.db t sessions there
          mine)
        (lapsed_required o.instance_id later _ b late))

renewed-named :
    (topic : String) (me : ℕ) (expires : Option ℕ) (db : Db) (t' : Topic)
    → find_topic topic (renew_topic_exclusive_consumer topic me expires db).topics ≡ some t'
    → t'.exclusive_consumer_id ≡ some me
    → (t : Topic) × (find_topic topic db.topics ≡ some t) × (t.exclusive_consumer_id ≡ some me)
renewed-named topic me expires db t' there mine = by_row (find_topic topic db.topics) refl
  where
    same_holder :
        (t : Topic) → (renewed topic me expires t).exclusive_consumer_id ≡ t.exclusive_consumer_id
    same_holder t = ground arith

    by_row :
        (row : Option Topic)
        → find_topic topic db.topics ≡ row
        → (t : Topic) × (find_topic topic db.topics ≡ some t) × (t.exclusive_consumer_id ≡ some me)
    by_row none e =
        let clash : none ≡ some t' =
          ap (Option.map (renewed topic me expires)) (sym e)
          ∙ sym (find_topic-renew topic me expires db)
          ∙ there in
        cc
    by_row (some t) e =
        let same : some (renewed topic me expires t) ≡ some t' =
          ap (Option.map (renewed topic me expires)) (sym e)
          ∙ sym (find_topic-renew topic me expires db)
          ∙ there in
        let row = Option.some-injective _ _ same in
        (t, e, sym (same_holder t) ∙ ap (λ (x : Topic). x.exclusive_consumer_id) row ∙ mine)

-- The same, by the row that the write leaves.
pub grace_lapses_after :
    (o : Outbox) (topic : String) (w : World) (t : Topic) (sessions : List ConsumerSession)
    (b later : ℕ)
    → answer w ≡ works
    → let after = (expire_exclusive_lease_after_grace o topic w).1 in
      find_topic topic after.db.topics ≡ some t
      → t.exclusive_consumer_id ≡ some o.instance_id
      → after.now + after.exclusive_lease_duration ≤ later
      → check_row b later
          (get_topic_for_update topic (record after.db { consumer_sessions = sessions }))
        ≡ err exclusive_lease_required
unfolding expire_exclusive_lease_after_grace logged catch pool_exec ◌>>=◌
grace_lapses_after o topic w t sessions b later answered there mine late =
    let written : find_topic topic
          (renew_topic_exclusive_consumer topic o.instance_id
            (some (w.now + w.exclusive_lease_duration)) w.db).topics
        ≡ some t =
      (rw answered at there) in
    let (old, before, held) =
      renewed-named topic o.instance_id (some (w.now + w.exclusive_lease_duration)) w.db t written
        mine in
    grace_lapses o topic w old sessions b later before held answered (rw answered at late)

pub orphaned-other :
    (o : Outbox) (topic : String) (stopped : Bool) (w : World) (t : Topic)
    → find_topic topic w.db.topics ≡ some t
    → t.exclusive_consumer_id ≢ some o.instance_id
    → find_topic topic (expire_lease_if_watcher_orphaned o topic stopped w).1.db.topics ≡ some t
unfolding expire_lease_if_watcher_orphaned expire_exclusive_lease_after_grace logged ◌>>=◌ pure
orphaned-other o topic false w t there other = there
orphaned-other o topic true w t there other =
    let kept =
      renew-other topic o.instance_id (some (w.now + w.exclusive_lease_duration)) w.db t there
        other in
    (catch_pool_exec_rule {Q = λ r v. find_topic topic v.db.topics ≡ some t} {w = w}
      (renew_topic_exclusive_consumer topic o.instance_id
        (some (w.now + w.exclusive_lease_duration)))
      (λ _. pure tt) kept (λ c. record { at = there }) (λ c. record { at = kept })).at
