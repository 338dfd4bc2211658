-- ===== src/Outbox/Claims/Held.antt =====
-- What the statements of a claim do to the leases that the instance holds.
use mathlib.Core.List.{
  mem-cons, not-mem-nil, mem-append_left, mem-append_right, map-append, Mem-prop,
}
use mathlib.Core.Logic.Or
use pgoutbox.Prelude.{
  ℕ, String, ◌≡◌, refl, ap, Bool, Bool-cases, inl, inr, none, List, [], ◌∷◌, Mem, map, Option-cases,
  number_test, if◌then◌else◌,
}
use pgoutbox.Sql.{update_where, select}
use pgoutbox.Db.{Db, MaintenanceLease}
use pgoutbox.Db.Leases.{
  find_lease, is_claimable, held_from, insert_maintenance_lease_if_absent,
  insert_maintenance_leases, claim_maintenance_leases,
}

abbrev pub lease_key : MaintenanceLease → String × ℕ
lease_key l = (l.topic, l.holder_id)

-- A lease row of the topic has this holder.
abbrev pub Holds : ℕ → String → Db → Type 0
Holds holder t db = Mem (t, holder) (map lease_key db.maintenance_leases)

module _ (now holder : ℕ) (t : String) where
  -- A takeover keeps what the holder holds, and gives it what is selected.
  Holds-update :
      (p : MaintenanceLease → Bool) (rows : List MaintenanceLease)
      → Mem (t, holder) (map lease_key rows)
      → Mem (t, holder) (map lease_key (update_where p (held_from now holder) rows))
  Holds-update p [] m = m
  Holds-update p (l ∷ rows) m =
      Or.elim Mem-prop (mem-cons.0 m) (λ e. mem-cons.1 (Or.inl (taken e)))
        (λ k. mem-cons.1 (Or.inr (Holds-update p rows k)))
    where
      taken :
          (t, holder) ≡ lease_key l
          → (t, holder) ≡ lease_key (if p l then held_from now holder l else l)
      taken e = elim (Bool-cases (p l)) [
        | inl hit ↦ rw hit (ap (λ k. (k.0, holder)) e)
        | inr miss ↦ rw miss e
      ]

  Holds-selected :
      (p : MaintenanceLease → Bool) (rows : List MaintenanceLease)
      → Mem t (map (λ (l : MaintenanceLease). l.topic) (select p rows))
      → Mem (t, holder) (map lease_key (update_where p (held_from now holder) rows))
  Holds-selected p [] m = absurd (not-mem-nil m)
  Holds-selected p (l ∷ rows) m = elim (Bool-cases (p l)) [
    | inl hit ↦
        (let k : Mem t (l.topic ∷ map (λ (x : MaintenanceLease). x.topic) (select p rows)) =
            (rw hit at m) in
          Or.elim Mem-prop (mem-cons.0 k) (λ e. mem-cons.1 (Or.inl (rw (hit, e) refl)))
            (λ k. mem-cons.1 (Or.inr (Holds-selected p rows k))))
    | inr miss ↦
        (let k : Mem t (map (λ (x : MaintenanceLease). x.topic) (select p rows)) = (rw miss at m) in
          mem-cons.1 (Or.inr (Holds-selected p rows k)))
  ]

  Holds-insert :
      (topic : String) (db : Db)
      → Holds holder t db
      → Holds holder t (insert_maintenance_lease_if_absent now topic holder db)
  unfolding insert_maintenance_lease_if_absent
  Holds-insert topic db m = elim (Option-cases (find_lease topic db.maintenance_leases)) [
    | inl absent ↦
        rw (absent, insert_maintenance_lease_if_absent)
          (rw (map-append lease_key db.maintenance_leases _) (mem-append_left _ m))
    | inr (l, there) ↦ rw (there, insert_maintenance_lease_if_absent) m
  ]

  Holds-inserted :
      (topic : String) (db : Db)
      → t ≡ topic
      → find_lease topic db.maintenance_leases ≡ none
      → Holds holder t (insert_maintenance_lease_if_absent now topic holder db)
  unfolding insert_maintenance_lease_if_absent
  Holds-inserted topic db e absent =
      rw (absent, insert_maintenance_lease_if_absent)
        (rw (map-append lease_key db.maintenance_leases _)
          (mem-append_right _ (mem-cons.1 (Or.inl (rw e refl)))))

  pub Holds-inserts :
      (topics : List String) (db : Db)
      → (Holds holder t db → Holds holder t (insert_maintenance_leases now topics holder db).0)
        × (Mem t (insert_maintenance_leases now topics holder db).1
            → Holds holder t (insert_maintenance_leases now topics holder db).0)
  unfolding insert_maintenance_leases
  Holds-inserts [] db = ((λ m. m), (λ m. absurd (not-mem-nil m)))
  Holds-inserts (topic ∷ topics) db =
      let (keeps, wins) =
        Holds-inserts topics (insert_maintenance_lease_if_absent now topic holder db) in
      (
        (λ m. keeps (Holds-insert topic db m)),
        λ m. elim (Option-cases (find_lease topic db.maintenance_leases)) [
          | inl absent ↦
              (let k : Mem t (
                    topic
                    ∷ (insert_maintenance_leases now topics holder
                        (insert_maintenance_lease_if_absent now topic holder db)).1) =
                  (rw (absent, insert_maintenance_leases) at m) in
                Or.elim Mem-prop (mem-cons.0 k) (λ e. keeps (Holds-inserted topic db e absent))
                  wins)
          | inr (l, there) ↦
              (let k : Mem t
                    (insert_maintenance_leases now topics holder
                      (insert_maintenance_lease_if_absent now topic holder db)).1 =
                  (rw (there, insert_maintenance_leases) at m) in
                wins k)
        ],
      )

  pub Holds-claims :
      (locked : String → Bool) (cutoff : ℕ) (topics : List String) (db : Db)
      → (Holds holder t db
          → Holds holder t (claim_maintenance_leases locked now cutoff topics holder db).0)
        × (Mem t (claim_maintenance_leases locked now cutoff topics holder db).1
            → Holds holder t (claim_maintenance_leases locked now cutoff topics holder db).0)
  unfolding claim_maintenance_leases
  Holds-claims locked cutoff topics db = (
    Holds-update (is_claimable locked now cutoff topics db.consumer_sessions) db.maintenance_leases,
    Holds-selected (is_claimable locked now cutoff topics db.consumer_sessions)
        db.maintenance_leases,
  )
