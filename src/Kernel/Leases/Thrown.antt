-- ===== src/Kernel/Leases/Thrown.antt =====
-- packages/kernel/src/worktree-writer-leases.ts: what each command has written when it throws a
-- durable error.
use torsor.Prelude.{
  ℕ, ◌+◌, String, ◌≡◌, refl, true, false, Option, none, some, [], ◌∷◌, ◌++◌, arith, eq_iff, str_eq,
  Bool-cases, inl, inr,
}
use torsor.Kernel.Errors.{KernelError}
use torsor.Kernel.Action.{thrown, ◌>>=◌}
use torsor.Kernel.Rows.{Principal, Lease, LeaseEvent, lease_expired}
use torsor.Kernel.World.{World, Db, now, fresh}
use torsor.Kernel.Physical.Idle.{assert_physical_worktree_idle}
use torsor.Kernel.Leases.Rows.{
  require_lease, get_lease, update_lease, put_lease, append_event, expire, expire_lease,
  expire_if_needed, is_lapsed, authority_result, state_result, require_runtime,
}
use torsor.Kernel.Leases.Sound.{IsSound?, LeasesSound}
use torsor.Kernel.Leases.Authority.{LeaseAuthority, refuse_lapsed, require_live_authority}
use torsor.Kernel.Leases.Commands.{
  acquire_at, acquire_worktree_writer_lease, renew_worktree_writer_lease,
  release_worktree_writer_lease,
}
use torsor.Kernel.Leases.Quarantine.{
  QuarantineCommand, ResolveCommand, quarantine_at, quarantine_worktree_writer_lease,
  require_quarantine_authority, non_empty_token, resolve_worktree_writer_lease_quarantine,
}
use torsor.Kernel.Leases.Dispatch.{
  LeaseCommand, acquire, renew, release, quarantine, resolve, dispatch_lease,
}

-- the Worktree that a command names
abbrev pub subject : LeaseCommand → String
subject (acquire id duration) = id
subject (renew a duration) = a.worktree_id
subject (release a) = a.worktree_id
subject (quarantine c) = c.worktree_id
subject (resolve c) = c.worktree_id

abbrev pub Lapsed : Option Lease → ℕ → Option Lease → Type 0
Lapsed none at after = ⊥
Lapsed (some l) at after = (is_lapsed l at ≡ true) × (after ≡ some (expire at l))

-- opens what the commands are made of
lease_code : Unit {0}
unfolding require_runtime require_lease get_lease put_lease update_lease fresh now expire_lease
    append_event authority_result state_result assert_physical_worktree_idle refuse_lapsed
    expire_if_needed ◌>>=◌
lease_code = tt

-- the database without the leases and their events
abbrev pub rest : Db → Db
rest d = record d { leases = λ id. none; lease_events = [] }

-- the record of an expiry
abbrev pub expiry_event : Lease → String → String → String → ℕ → LeaseEvent
expiry_event gone actor correlation id occurred = record {
  id = id;
  worktree_id = gone.worktree_id;
  type = lease_expired;
  revision = gone.revision;
  generation = gone.generation;
  fencing_token = gone.fencing_token;
  actor_principal_id = actor;
  holder_principal_id = gone.holder_principal_id;
  expires_at = gone.expires_at;
  reason = some "lease_expired";
  evidence = none;
  correlation_id = correlation;
  occurred_at = occurred;
}

-- One event tells the expiry, and every other table is as it was.
abbrev pub Recorded : World → World → String → String → Lease → ℕ → ℕ → Type 0
Recorded w w' actor correlation l at occurred =
    (w'.lease_events
      ≡ w.lease_events
        ++ expiry_event (expire at l) actor correlation
            (w.names "worktree_writer_lease_event" w.issued) occurred
          ∷ [])
    × (rest w'.db ≡ rest w.db)

abbrev pub Recorded? : World → World → String → String → Option Lease → ℕ → ℕ → Type 0
Recorded? w w' actor correlation none at occurred = ⊥
Recorded? w w' actor correlation (some l) at occurred =
    Recorded w w' actor correlation l at occurred

-- What a durable error has written: the expiry of the row of one Worktree.
abbrev pub OnlyExpired : World → World → String → String → String → Option Lease → Type 0
OnlyExpired w w' actor correlation id row =
    Lapsed row (w.clock w.reads) (w'.leases id)
    × ((j : String) → str_eq j id ≡ false → w'.leases j ≡ w.leases j)
    × Recorded? w w' actor correlation row (w.clock w.reads) (w.clock (w.reads + 1))

abbrev Alive : Option Lease → ℕ → Type 0
Alive none at = Unit
Alive (some l) at = is_lapsed l at ≡ false

module _ (p : Principal) (correlation : String) {e : KernelError} {w' : World} where
  never_durable :
      (c : QuarantineCommand) (at : ℕ) (w : World) (x : Option Lease)
      → w.leases c.worktree_id ≡ x
      → Alive x at
      → quarantine_at c p correlation at w ≡ thrown e w'
      → e.durable ≡ true
      → ⊥
  unfolding quarantine_at require_quarantine_authority non_empty_token lease_code
  never_durable c at w none f alive h k = ground (arith, eq_iff c.worktree_id c.worktree_id)
  never_durable c at w (some l) f alive h k = ground (arith, eq_iff c.worktree_id c.worktree_id)

  Lapsed-durable :
      (c : QuarantineCommand) (at : ℕ) (w : World) (l : Lease)
      → w.leases c.worktree_id ≡ some l
      → is_lapsed l at ≡ true
      → l.worktree_id ≡ c.worktree_id
      → quarantine_at c p correlation at w ≡ thrown e w'
      → e.durable ≡ true
      → Lapsed (some l) at (w'.leases c.worktree_id)
        × ((j : String) → str_eq j c.worktree_id ≡ false → w'.leases j ≡ w.leases j)
        × Recorded w w' p.id correlation l at (w.clock w.reads)
  unfolding quarantine_at require_quarantine_authority lease_code
  Lapsed-durable c at w l f lapsed key h k = (
    ground (arith, eq_iff c.worktree_id c.worktree_id, eq_iff c.worktree_id l.worktree_id),
    λ j ne.
        ground (
          arith,
          eq_iff j c.worktree_id,
          eq_iff c.worktree_id l.worktree_id,
          eq_iff j l.worktree_id,
        ),
    ground (arith, eq_iff c.worktree_id c.worktree_id, eq_iff c.worktree_id l.worktree_id),
  )

module _ (w : World) (p : Principal) (correlation : String) (e : KernelError) (w' : World) where
  acquire_durable :
      (id : String) (d : ℕ) (x : Option Lease)
      → w.leases id ≡ x
      → IsSound? id x
      → acquire_worktree_writer_lease id d p correlation w ≡ thrown e w'
      → e.durable ≡ true
      → OnlyExpired w w' p.id correlation id x
  unfolding acquire_worktree_writer_lease acquire_at lease_code
  acquire_durable id d none f s h k = (ground arith, λ j ne. ground arith, ground arith)
  acquire_durable id d (some l) f s h k = (
    ground (arith, eq_iff id id, eq_iff id l.worktree_id),
    λ j ne. ground (arith, eq_iff j id, eq_iff j l.worktree_id),
    ground (arith, eq_iff id id, eq_iff id l.worktree_id),
  )

  renew_durable :
      (a : LeaseAuthority) (d : ℕ) (x : Option Lease)
      → w.leases a.worktree_id ≡ x
      → IsSound? a.worktree_id x
      → renew_worktree_writer_lease a d p correlation w ≡ thrown e w'
      → e.durable ≡ true
      → OnlyExpired w w' p.id correlation a.worktree_id x
  unfolding renew_worktree_writer_lease require_live_authority lease_code
  renew_durable a d none f s h k = (ground arith, λ j ne. ground arith, ground arith)
  renew_durable a d (some l) f s h k = (
    ground (arith, eq_iff a.worktree_id a.worktree_id, eq_iff a.worktree_id l.worktree_id),
    λ j ne. ground (arith, eq_iff j a.worktree_id, eq_iff j l.worktree_id),
    ground (arith, eq_iff a.worktree_id a.worktree_id, eq_iff a.worktree_id l.worktree_id),
  )

  release_durable :
      (a : LeaseAuthority) (x : Option Lease)
      → w.leases a.worktree_id ≡ x
      → IsSound? a.worktree_id x
      → release_worktree_writer_lease a p correlation w ≡ thrown e w'
      → e.durable ≡ true
      → OnlyExpired w w' p.id correlation a.worktree_id x
  unfolding release_worktree_writer_lease require_live_authority lease_code
  release_durable a none f s h k = (ground arith, λ j ne. ground arith, ground arith)
  release_durable a (some l) f s h k = (
    ground (arith, eq_iff a.worktree_id a.worktree_id, eq_iff a.worktree_id l.worktree_id),
    λ j ne. ground (arith, eq_iff j a.worktree_id, eq_iff j l.worktree_id),
    ground (arith, eq_iff a.worktree_id a.worktree_id, eq_iff a.worktree_id l.worktree_id),
  )

  quarantine_inner :
      (c : QuarantineCommand)
      → quarantine_worktree_writer_lease c p correlation w ≡ thrown e w'
      → e.durable ≡ true
      → quarantine_at c p correlation (w.clock w.reads) (record w { reads = w.reads + 1 })
        ≡ thrown e w'
  unfolding quarantine_worktree_writer_lease require_runtime now ◌>>=◌
  quarantine_inner c h k = ground arith

  quarantine_durable :
      (c : QuarantineCommand) (x : Option Lease)
      → w.leases c.worktree_id ≡ x
      → IsSound? c.worktree_id x
      → quarantine_worktree_writer_lease c p correlation w ≡ thrown e w'
      → e.durable ≡ true
      → OnlyExpired w w' p.id correlation c.worktree_id x
  quarantine_durable c none f s h k = absurd (
      never_durable p correlation c (w.clock w.reads) (record w { reads = w.reads + 1 }) none f tt
        (quarantine_inner c h k) k)
  quarantine_durable c (some l) f s h k = elim (Bool-cases (is_lapsed l (w.clock w.reads))) [
    | inl lapsed ↦
        Lapsed-durable p correlation c (w.clock w.reads) (record w { reads = w.reads + 1 }) l f
          lapsed s.keyed (quarantine_inner c h k) k
    | inr alive ↦ absurd (
        never_durable p correlation c (w.clock w.reads) (record w { reads = w.reads + 1 }) (some l)
          f alive (quarantine_inner c h k) k)
  ]

  resolve_durable :
      (c : ResolveCommand) (x : Option Lease)
      → w.leases c.worktree_id ≡ x
      → IsSound? c.worktree_id x
      → resolve_worktree_writer_lease_quarantine c p correlation w ≡ thrown e w'
      → e.durable ≡ true
      → OnlyExpired w w' p.id correlation c.worktree_id x
  unfolding resolve_worktree_writer_lease_quarantine lease_code
  resolve_durable c none f s h k = (ground arith, λ j ne. ground arith, ground arith)
  resolve_durable c (some l) f s h k = (
    ground (arith, eq_iff c.worktree_id c.worktree_id, eq_iff c.worktree_id l.worktree_id),
    λ j ne. ground (arith, eq_iff j c.worktree_id, eq_iff j l.worktree_id),
    ground (arith, eq_iff c.worktree_id c.worktree_id, eq_iff c.worktree_id l.worktree_id),
  )

  pub durable_at_subject :
      (c : LeaseCommand)
      → LeasesSound w.leases
      → dispatch_lease c p correlation w ≡ thrown e w'
      → e.durable ≡ true
      → OnlyExpired w w' p.id correlation (subject c) (w.leases (subject c))
  unfolding dispatch_lease
  durable_at_subject (acquire id d) s h k = acquire_durable id d (w.leases id) refl (s id) h k
  durable_at_subject (renew a d) s h k =
      renew_durable a d (w.leases a.worktree_id) refl (s a.worktree_id) h k
  durable_at_subject (release a) s h k =
      release_durable a (w.leases a.worktree_id) refl (s a.worktree_id) h k
  durable_at_subject (quarantine c) s h k =
      quarantine_durable c (w.leases c.worktree_id) refl (s c.worktree_id) h k
  durable_at_subject (resolve c) s h k =
      resolve_durable c (w.leases c.worktree_id) refl (s c.worktree_id) h k
