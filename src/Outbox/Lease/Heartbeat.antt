-- ===== src/Outbox/Lease/Heartbeat.antt =====
-- What the heartbeat of an instance does to its leases.
use pgoutbox.Prelude.{ℕ, ◌+◌, String, ◌≡◌, refl, ◌∙◌, ap, none, some}
use pgoutbox.Db.{Db, Topic}
use pgoutbox.Db.Topics.{find_topic, joined_row, get_topic_for_update}
use pgoutbox.Db.Sessions.{upsert_consumer_session}
use pgoutbox.World.{World, ok, works, answer, ◌>>=◌, pool_exec}
use pgoutbox.Outbox.{Outbox}
use pgoutbox.Outbox.Lease.{own_session, upsert_own_session}
use pgoutbox.Outbox.Lease.Row.{lease_row, leased, joined_row-leased, topics-upsert}

module _ (o : Outbox) (topic : String) (w : World) (t : Topic) where
  abbrev beaten : Db
  beaten = upsert_consumer_session (own_session o w) w.db

  found_beaten : find_topic topic w.db.topics ≡ some t → find_topic topic beaten.topics ≡ some t
  found_beaten there = ap (find_topic topic) (topics-upsert (own_session o w) w.db) ∙ there

  deferred_row :
      find_topic topic w.db.topics ≡ some t
      → t.exclusive_consumer_id ≡ some o.instance_id
      → t.exclusive_consumer_expires_at ≡ none
      → get_topic_for_update topic beaten
        ≡ some (lease_row o.instance_id (w.now + w.exclusive_lease_duration))
  unfolding get_topic_for_update own_session
  deferred_row there mine open_ended =
      let as_leased : t ≡ leased o.instance_id t = rw (mine, open_ended) refl in
      rw (found_beaten there, get_topic_for_update)
        (ap some (
          ap (joined_row beaten.consumer_sessions) as_leased
          ∙ joined_row-leased (own_session o w) w.db t))

  ending_row :
      (expires : ℕ)
      → find_topic topic w.db.topics ≡ some t
      → t.exclusive_consumer_id ≡ some o.instance_id
      → t.exclusive_consumer_expires_at ≡ some expires
      → get_topic_for_update topic beaten ≡ some (lease_row o.instance_id expires)
  unfolding get_topic_for_update joined_row
  ending_row expires there mine set =
      rw (found_beaten there, get_topic_for_update) (rw (mine, set) refl)

  -- A heartbeat that is answered carries each lease of the instance that has no expiry of its own to
  -- one lease duration from now, and leaves a lease with an expiry of its own, as the grace period and
  -- the release write it, to end when that says.
  pub heartbeat_extends :
      find_topic topic w.db.topics ≡ some t
      → t.exclusive_consumer_id ≡ some o.instance_id
      → answer w ≡ works
      → let (r, after) = upsert_own_session o w in
        (r ≡ ok tt)
        × (t.exclusive_consumer_expires_at ≡ none
            → get_topic_for_update topic after.db
              ≡ some (lease_row o.instance_id (w.now + w.exclusive_lease_duration)))
        × ((expires : ℕ)
            → t.exclusive_consumer_expires_at ≡ some expires
            → get_topic_for_update topic after.db ≡ some (lease_row o.instance_id expires))
  unfolding upsert_own_session ◌>>=◌ pool_exec own_session
  heartbeat_extends there mine answered =
      rw (answered, upsert_own_session)
        (
          refl,
          (λ open_ended. deferred_row there mine open_ended),
          λ expires set. ending_row expires there mine set,
        )
