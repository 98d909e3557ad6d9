-- ===== src/Kernel/Leases/Fencing.antt =====
-- packages/kernel/src/worktree-writer-leases.ts: every command keeps the rows sound and moves their
-- counters forward only, whether it returns or throws.
use torsor.Prelude.{ℕ, String, refl, false, Option, none, some, arith, not}
use torsor.Kernel.Action.{final}
use torsor.Kernel.Action.Triples.{
  Triple, Triple-pure, Triple-bind, Triple-weaken, Triple-check, Triple-if, Triple-final,
  Triple-assume,
}
use torsor.Kernel.Rows.{Principal, Lease, lease_quarantined, quarantine_resolved, is_active}
use torsor.Kernel.World.{World}
use torsor.Kernel.Leases.Rows.{require_runtime}
use torsor.Kernel.Leases.Sound.{Table, LeasesAdvance, LeasesAdvance-refl, LeasesSound}
use torsor.Kernel.Leases.Statements.{
  Kept, Holds, Triple-now, Triple-fresh, Triple-check-Kept, Triple-idle, Triple-result,
  Triple-get_lease, Triple-require_lease, Triple-update_lease, Triple-put_lease,
}
use torsor.Kernel.Leases.Steps.{expire_if_needed-Triple}
use torsor.Kernel.Leases.Commands.{get_worktree_writer_lease}
use torsor.Kernel.Leases.Quarantine.{
  QuarantineCommand, quarantined_lease, quarantine_at, quarantine_worktree_writer_lease,
  require_quarantine_authority, non_empty_token, ResolveCommand, resolve_lease,
  resolve_worktree_writer_lease_quarantine,
}
use torsor.Kernel.Leases.Dispatch.{
  LeaseCommand, acquire, renew, release, quarantine, resolve, dispatch_lease,
}
use torsor.Kernel.Leases.Changes.{
  quarantined_lease-IsSound, quarantined_lease-Advances, resolve_lease-IsSound,
}
use torsor.Kernel.Leases.Writes.{
  acquire-Triple, renew-Triple, release-Triple, query-Triple, written-Triple,
}

module _ (t0 : Table) where
  quarantine_authority-Triple :
      (c : QuarantineCommand) (id : String) (x : Option Lease) (p : Principal) (at : ℕ)
      → Triple
          (Kept t0)
          (Holds t0 id x)
          (require_quarantine_authority c x p at)
          (λ _. Holds t0 id x)
  unfolding require_quarantine_authority non_empty_token
  quarantine_authority-Triple c id none p at =
      Triple-weaken (λ s h. h) (Triple-pure tt) (λ a s h. h.0)
  quarantine_authority-Triple c id (some l) p at =
      Triple-if (not (is_active l.status)) _ _
        (λ _. Triple-weaken (λ s h. h) (Triple-pure tt) (λ a s h. h.0))
        λ _. Triple-bind _ _ (Triple-check-Kept t0 id (some l) _ _) λ _.
          Triple-bind _ _ (token-Triple c.lease_token) λ _.
            Triple-bind _ _ (Triple-check-Kept t0 id (some l) _ _)
              λ _. Triple-check-Kept t0 id (some l) _ _
    where
      token-Triple :
          (token : Option String)
          → Triple
              (Kept t0)
              (Holds t0 id (some l))
              (non_empty_token token)
              (λ _. Holds t0 id (some l))
      token-Triple none = Triple-weaken (λ s h. h) (Triple-pure tt) (λ a s h. h.0)
      token-Triple (some token) = Triple-check-Kept t0 id (some l) _ _

  quarantine_at-Triple :
      (c : QuarantineCommand) (p : Principal) (correlation : String) (at : ℕ)
      → Triple (Kept t0) (Kept t0) (quarantine_at c p correlation at) (λ _. Kept t0)
  unfolding quarantine_at
  quarantine_at-Triple c p correlation at = Triple-bind _ _ (Triple-get_lease t0 id) λ current.
      Triple-bind _ _ (expire_if_needed-Triple t0 id current p.id correlation at) λ existing.
        Triple-bind _ _ (Triple-check-Kept t0 id existing _ _) λ _.
          Triple-bind _ _ (quarantine_authority-Triple c id existing p at) λ _.
            Triple-bind _ _ (Triple-check-Kept t0 id existing _ _) λ _.
              Triple-bind _ _ (Triple-check-Kept t0 id existing _ _) λ _.
                Triple-bind _ _ (Triple-fresh t0 id existing "wqt") λ token.
                  Triple-bind _ _
                    (Triple-put_lease t0 id existing (quarantined_lease c existing token at)
                      (quarantined_lease-IsSound c existing token at)
                      (λ _. quarantined_lease-Advances c existing token at))
                    λ _.
                      written-Triple t0 id _ lease_quarantined p.id correlation _ _ _
                        (λ m. Triple-result t0 id (some m) _)
    where
      id : String
      id = c.worktree_id

  quarantine-Triple :
      (c : QuarantineCommand) (x : Option Lease) (p : Principal) (correlation : String)
      → Triple
          (Kept t0)
          (Holds t0 c.worktree_id x)
          (quarantine_worktree_writer_lease c p correlation)
          (λ _. Kept t0)
  unfolding quarantine_worktree_writer_lease require_runtime
  quarantine-Triple c x p correlation =
      Triple-bind _ _ (Triple-check-Kept t0 c.worktree_id x _ _) λ _.
        Triple-bind _ _ (Triple-check-Kept t0 c.worktree_id x _ _) λ _.
          Triple-bind _ _ (Triple-check-Kept t0 c.worktree_id x _ _) λ _.
            Triple-bind _ _ (Triple-now t0 c.worktree_id x) λ at.
              Triple-weaken (λ s h. h.0) (quarantine_at-Triple c p correlation at) (λ a s h. h)

  resolve-Triple :
      (c : ResolveCommand) (x : Option Lease) (p : Principal) (correlation : String)
      → Triple
          (Kept t0)
          (Holds t0 c.worktree_id x)
          (resolve_worktree_writer_lease_quarantine c p correlation)
          (λ _. Kept t0)
  unfolding resolve_worktree_writer_lease_quarantine require_runtime
  resolve-Triple c x p correlation = Triple-bind _ _ (Triple-check-Kept t0 id x _ _) λ _.
      Triple-bind _ _ (Triple-idle t0 id x id false) λ _.
        Triple-bind _ _ (Triple-check-Kept t0 id x _ _) λ _.
          Triple-bind _ _ (Triple-check-Kept t0 id x _ _) λ _.
            Triple-bind _ _ (Triple-check-Kept t0 id x _ _) λ _.
              Triple-bind _ _ (Triple-require_lease t0 id x) λ l.
                Triple-bind _ _
                  (Triple-weaken (λ s h. h.0) (Triple-check-Kept t0 id (some l) _ _) (λ a s h. h))
                  λ _. Triple-bind _ _ (Triple-check _ _ (λ s h. h.0)) λ _. Triple-assume λ held.
                    Triple-bind _ _ (Triple-now t0 id (some l)) λ at.
                      Triple-bind _ _
                        (Triple-update_lease t0 id l (resolve_lease c l at)
                          (resolve_lease-IsSound c l at held) (omega arith))
                        λ _.
                          written-Triple t0 id _ quarantine_resolved p.id correlation _ _ _
                            (λ m. Triple-result t0 id (some m) _)
    where
      id : String
      id = c.worktree_id

  dispatch_lease-Triple :
      (c : LeaseCommand) (p : Principal) (correlation : String)
      → (s : World) → Kept t0 s
      → Kept t0 (final (dispatch_lease c p correlation s))
  unfolding dispatch_lease
  dispatch_lease-Triple (acquire id duration) p correlation s h =
      Triple-final (λ a s h. h) (acquire-Triple t0 id (s.leases id) duration p correlation) s
        (h, refl)
  dispatch_lease-Triple (renew a duration) p correlation s h =
      Triple-final (λ a s h. h) (renew-Triple t0 a (s.leases a.worktree_id) duration p correlation)
        s (h, refl)
  dispatch_lease-Triple (release a) p correlation s h =
      Triple-final (λ a s h. h) (release-Triple t0 a (s.leases a.worktree_id) p correlation) s
        (h, refl)
  dispatch_lease-Triple (quarantine c) p correlation s h =
      Triple-final (λ a s h. h) (quarantine-Triple c (s.leases c.worktree_id) p correlation) s
        (h, refl)
  dispatch_lease-Triple (resolve c) p correlation s h =
      Triple-final (λ a s h. h) (resolve-Triple c (s.leases c.worktree_id) p correlation) s
        (h, refl)

-- From a table of sound rows every lease command, on every path and also where it throws, leaves a
-- table of sound rows in which no row is gone and no revision, generation or fencing token fell.
pub dispatch_lease-LeasesAdvance :
    (c : LeaseCommand) (p : Principal) (correlation : String) (w : World)
    → LeasesSound w.leases
    → LeasesAdvance w.leases (final (dispatch_lease c p correlation w)).leases
dispatch_lease-LeasesAdvance c p correlation w h =
    dispatch_lease-Triple w.leases c p correlation w (LeasesAdvance-refl w.leases h)

-- From a table of sound rows the query of a lease, which may record that the lease has expired, on
-- every path and also where it throws, leaves a table of sound rows in which no row is gone and no
-- revision, generation or fencing token fell.
pub get_worktree_writer_lease-LeasesAdvance :
    (id : String) (p : Principal) (w : World)
    → LeasesSound w.leases
    → LeasesAdvance w.leases (final (get_worktree_writer_lease id p w)).leases
get_worktree_writer_lease-LeasesAdvance id p w h =
    Triple-final (λ a s h. h) (query-Triple w.leases id (w.leases id) p) w
      (LeasesAdvance-refl w.leases h, refl)
