-- ===== src/Db/Leases.antt =====
-- The statements of sqlc/queries.sql.go on `maintenance_leases`, and the scan for candidates.
use pgoutbox.Prelude.{
  ℕ, ◌-◌, ◌+◌, String, Bool, true, false, not, ◌&&◌, ◌||◌, Option, none, some, List, [], ◌∷◌, ◌++◌,
  map, elem, ltb, ◌==◌, text_test, number_test, ℤ, pos, pos_part,
}
use pgoutbox.Sql.{
  select, delete_where, update_where, query_row, coalesce, coalesce_or, null_test, null_or,
}
use pgoutbox.Db.{Db, Topic, ConsumerSession, MaintenanceLease}
use pgoutbox.Db.Sessions.{find_session}

abbrev pub find_lease : String → List MaintenanceLease → Option MaintenanceLease
find_lease topic = query_row (λ l. l.topic == topic)

-- COALESCE(s.expires_at < now(), l.acquired_at < cutoff): a holder with no session row is judged by
-- the age of its lease.
unfoldable pub is_lease_expired : ℕ → ℕ → List ConsumerSession → MaintenanceLease → Bool
is_lease_expired now cutoff sessions l =
    coalesce_or
      (null_test (λ (s : ConsumerSession). ltb s.expires_at now)
        (find_session l.holder_id sessions))
      (ltb l.acquired_at cutoff)

-- InsertMaintenanceLeaseIfAbsent
unfoldable pub insert_maintenance_lease_if_absent : ℕ → String → ℕ → Db → Db
insert_maintenance_lease_if_absent now topic holder db =
    elim (find_lease topic db.maintenance_leases) [
      | none ↦ record db {
        maintenance_leases =
            db.maintenance_leases
            ++ record { topic = topic; holder_id = holder; acquired_at = now } ∷ [];
      }
      | some _ ↦ db
    ]

-- SelectMaintenanceLeaseForUpdateRow
pub record SelectMaintenanceLeaseForUpdateRow : Type 0 where
  pub holder_id : ℕ
  pub lease_expired : Bool

-- SelectMaintenanceLeaseForUpdate; `none` is `pgx.ErrNoRows`.
unfoldable pub select_maintenance_lease_for_update :
    ℕ → ℕ → String → Db → Option SelectMaintenanceLeaseForUpdateRow
unfolding is_lease_expired
select_maintenance_lease_for_update now cutoff topic db =
    elim (find_lease topic db.maintenance_leases) [
      | none ↦ none
      | some l ↦ some (record {
        holder_id = l.holder_id;
        lease_expired = is_lease_expired now cutoff db.consumer_sessions l;
      })
    ]

abbrev pub held_from : ℕ → ℕ → MaintenanceLease → MaintenanceLease
held_from now holder l = record l { holder_id = holder; acquired_at = now }

-- UpdateMaintenanceLease
unfoldable pub update_maintenance_lease : ℕ → String → ℕ → Db → Db
update_maintenance_lease now topic holder db = record db {
  maintenance_leases =
      update_where (λ l. l.topic == topic) (held_from now holder) db.maintenance_leases;
}

-- ReleaseMaintenanceLease
unfoldable pub release_maintenance_lease : String → ℕ → Db → Db
release_maintenance_lease topic holder db = record db {
  maintenance_leases =
      delete_where (λ l. l.topic == topic && l.holder_id == holder) db.maintenance_leases;
}

-- InsertMaintenanceLeases: the new state and the topics that RETURNING reports.
unfoldable pub insert_maintenance_leases : ℕ → List String → ℕ → Db → Db × List String
unfolding insert_maintenance_lease_if_absent
insert_maintenance_leases now [] holder db = (db, [])
insert_maintenance_leases now (t ∷ ts) holder db =
    let (after, won) =
      insert_maintenance_leases now ts holder
        (insert_maintenance_lease_if_absent now t holder db) in
    (after, elim (find_lease t db.maintenance_leases) [ none ↦ t ∷ won | some _ ↦ won ])

-- The `claimable` rows: leases that another transaction holds locked are skipped.
unfoldable pub is_claimable :
    (String → Bool) → ℕ → ℕ → List String → List ConsumerSession → MaintenanceLease → Bool
unfolding is_lease_expired
is_claimable locked now cutoff topics sessions l =
    elem l.topic topics && is_lease_expired now cutoff sessions l && not (locked l.topic)

-- ClaimMaintenanceLeases: the new state and the topics that RETURNING reports.
unfoldable pub claim_maintenance_leases :
    (String → Bool) → ℕ → ℕ → List String → ℕ → Db → Db × List String
unfolding is_claimable
claim_maintenance_leases locked now cutoff topics holder db =
    let claimable = is_claimable locked now cutoff topics db.consumer_sessions in
    (
      record db {
        maintenance_leases = update_where claimable (held_from now holder) db.maintenance_leases;
      },
      map (λ (l : MaintenanceLease). l.topic) (select claimable db.maintenance_leases),
    )

-- GetMaintenanceCandidateTopicsRow
pub record GetMaintenanceCandidateTopicsRow : Type 0 where
  pub topic : String
  pub expiration_nanos : Option ℤ
  pub held_by_me : Bool
  pub unleased : Bool
  pub lease_expired : Bool

abbrev pub is_positive : ℤ → Bool
is_positive d = ltb 0 (pos_part d)

-- The WHERE clause: a positive expiration, and forced, never stamped, or stamped within the
-- expiration and the slack.
unfoldable pub is_candidate : ℕ → Option ℤ → List String → ℕ → Topic → Bool
is_candidate now default_expiration include slack t =
    let expiration = coalesce_or (coalesce t.expiration_nanos default_expiration) (pos 0) in
    is_positive expiration
    && (elem t.topic include
        || null_or (λ last. ltb (now - last) (pos_part expiration + slack)) t.last_inserted_at)

unfoldable pub candidate_row : ℕ → ℕ → ℕ → Db → Topic → GetMaintenanceCandidateTopicsRow
unfolding is_lease_expired
candidate_row now cutoff holder db t = elim (find_lease t.topic db.maintenance_leases) [
  | none ↦ record {
    topic = t.topic;
    expiration_nanos = t.expiration_nanos;
    held_by_me = false;
    unleased = true;
    lease_expired = true;
  }
  | some l ↦ record {
    topic = t.topic;
    expiration_nanos = t.expiration_nanos;
    held_by_me = l.holder_id == holder;
    unleased = false;
    lease_expired = is_lease_expired now cutoff db.consumer_sessions l;
  }
]

-- GetMaintenanceCandidateTopics, in nanoseconds where the statement converts to seconds.
unfoldable pub get_maintenance_candidate_topics :
    ℕ → ℕ → ℕ → Option ℤ → List String → ℕ → Db → List GetMaintenanceCandidateTopicsRow
unfolding is_candidate candidate_row
get_maintenance_candidate_topics now cutoff holder default_expiration include slack db =
    map (candidate_row now cutoff holder db)
      (select (is_candidate now default_expiration include slack) db.topics)
