-- ===== src/Kernel/Leases/Sound.antt =====
-- packages/kernel/src/schema.ts, the CHECK of worktree_writer_leases, and the order in which the
-- rows of one Worktree follow one another.
use torsor.Prelude.{
  ◌≤◌, ◌<◌, String, ◌≡◌, sym, subst, true, false, Option, none, some, is_none, arith, str_eq,
  eq_iff, Bool-cases, inl, inr,
}
use torsor.Kernel.Rows.{Lease, LeaseStatus, active, released, expired, quarantined}

-- The columns that the CHECK ties to each status. The evidence of an Active row is added: the CHECK
-- leaves it open, and expiry and release keep the column, which must then be NULL.
abbrev pub Checks : LeaseStatus → Lease → Type 0
Checks active l =
    (0 < l.generation)
    × (is_none l.holder_principal_id ≡ false)
    × (is_none l.lease_token ≡ false)
    × (is_none l.acquired_at ≡ false)
    × (is_none l.expires_at ≡ false)
    × (l.released_at ≡ none)
    × (l.quarantine_reason ≡ none)
    × (l.quarantine_token ≡ none)
    × (l.quarantined_at ≡ none)
    × (l.quarantine_resolved_at ≡ none)
    × (l.quarantine_resolution ≡ none)
    × (l.quarantine_evidence ≡ none)
Checks quarantined l =
    (l.holder_principal_id ≡ none)
    × (l.lease_token ≡ none)
    × (l.expires_at ≡ none)
    × (l.released_at ≡ none)
    × (is_none l.quarantine_reason ≡ false)
    × (is_none l.quarantine_token ≡ false)
    × (is_none l.quarantined_at ≡ false)
    × (l.quarantine_resolved_at ≡ none)
    × (l.quarantine_resolution ≡ none)
Checks released l =
    (l.holder_principal_id ≡ none)
    × (l.lease_token ≡ none)
    × (l.expires_at ≡ none)
    × (l.quarantine_reason ≡ none)
    × (l.quarantine_token ≡ none)
    × (l.quarantine_evidence ≡ none)
    × (l.quarantined_at ≡ none)
    × (is_none l.quarantine_resolved_at ≡ is_none l.quarantine_resolution)
Checks expired l =
    (l.holder_principal_id ≡ none)
    × (l.lease_token ≡ none)
    × (l.expires_at ≡ none)
    × (l.quarantine_reason ≡ none)
    × (l.quarantine_token ≡ none)
    × (l.quarantine_evidence ≡ none)
    × (l.quarantined_at ≡ none)
    × (l.quarantine_resolved_at ≡ none)
    × (l.quarantine_resolution ≡ none)

-- What the table definition demands of a row that is stored under a key, with that addition.
pub record IsSound (id : String) (l : Lease) : Type 0 where
  pub keyed : l.worktree_id ≡ id
  pub revised : 0 < l.revision
  pub fenced : 0 < l.fencing_token
  pub checks : Checks l.status l

abbrev pub IsSound? : String → Option Lease → Type 0
IsSound? id none = Unit
IsSound? id (some l) = IsSound id l

-- A row is never deleted, and its counters never fall.
abbrev pub Advances : Option Lease → Option Lease → Type 0
Advances none after = Unit
Advances (some l) none = ⊥
Advances (some l) (some m) =
    (l.revision ≤ m.revision) × (l.generation ≤ m.generation) × (l.fencing_token ≤ m.fencing_token)

abbrev pub Table : Type 0
Table = String → Option Lease

-- Every row of the table is sound.
abbrev pub LeasesSound : Table → Type 0
LeasesSound t = (id : String) → IsSound? id (t id)

-- The later table is sound, and each row of the earlier one has only moved on.
pub record LeasesAdvance (t t' : Table) : Type 0 where
  pub sound : LeasesSound t'
  pub advances : (id : String) → Advances (t id) (t' id)

pub Advances-refl : (x : Option Lease) → Advances x x
Advances-refl none = tt
Advances-refl (some l) = omega arith

pub Advances-trans : (x y z : Option Lease) → Advances x y → Advances y z → Advances x z
Advances-trans none y z h k = tt
Advances-trans (some l) none z h k = elim h [ ]
Advances-trans (some l) (some m) none h k = elim k [ ]
Advances-trans (some l) (some m) (some n) h k = omega arith

pub LeasesAdvance-refl : (t : Table) → LeasesSound t → LeasesAdvance t t
LeasesAdvance-refl t h = record { sound = h; advances = λ id. Advances-refl (t id) }

-- A change of the row under one key.
pub LeasesAdvance-change :
    (t0 t t' : Table) (id : String) (x : Option Lease)
    → LeasesAdvance t0 t
    → IsSound? id x
    → Advances (t id) x
    → ((j : String) → str_eq j id ≡ true → t' j ≡ x)
    → ((j : String) → str_eq j id ≡ false → t' j ≡ t j)
    → LeasesAdvance t0 t'
LeasesAdvance-change t0 t t' id x h sound moved same other = record {
  sound = λ j. elim (Bool-cases (str_eq j id)) [
    | inl e ↦ rw (same j e) (subst (λ k. IsSound? k x) (sym ((eq_iff j id).0 e)) sound)
    | inr e ↦ rw (other j e) (h.sound j)
  ];
  advances = λ j.
      Advances-trans (t0 j) (t j) (t' j) (h.advances j) (elim (Bool-cases (str_eq j id)) [
        | inl e ↦ rw (same j e) (subst (λ k. Advances (t k) x) (sym ((eq_iff j id).0 e)) moved)
        | inr e ↦ rw (other j e) (Advances-refl (t j))
      ]);
}
