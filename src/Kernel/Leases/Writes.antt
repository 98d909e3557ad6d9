-- ===== src/Kernel/Leases/Writes.antt =====
-- packages/kernel/src/worktree-writer-leases.ts: acquire, renew, release and the query keep the rows sound.
use torsor.Prelude.{ℕ, ◌+◌, String, false, Option, none, some, arith}
use torsor.Kernel.Action.{◌>>=◌, ◌>>◌}
use torsor.Kernel.Action.Triples.{Triple, Triple-bind, Triple-weaken, Triple-assume}
use torsor.Kernel.Rows.{
  Principal, Lease, LeaseEventType, lease_acquired, lease_renewed, lease_released,
}
use torsor.Kernel.World.{Command}
use torsor.Kernel.Leases.Rows.{require_runtime, require_lease, append_event}
use torsor.Kernel.Leases.Sound.{Table}
use torsor.Kernel.Leases.Statements.{
  Kept, Holds, Triple-now, Triple-fresh, Triple-check-Kept, Triple-idle, Triple-authority_result,
  Triple-result, Triple-bounded_duration, Triple-get_lease, Triple-require_lease,
  Triple-update_lease, Triple-put_lease, Triple-append_event,
}
use torsor.Kernel.Leases.Authority.{LeaseAuthority}
use torsor.Kernel.Leases.Steps.{expire_if_needed-Triple, require_live_authority-Triple}
use torsor.Kernel.Leases.Commands.{
  acquired_lease, acquire_at, acquire_worktree_writer_lease, renew_lease,
  renew_worktree_writer_lease, release_lease, release_worktree_writer_lease,
  get_worktree_writer_lease,
}
use torsor.Kernel.Leases.Changes.{
  acquired_lease-IsSound, acquired_lease-Advances, renew_lease-IsSound, release_lease-IsSound,
}

module _ (t0 : Table) where
  acquire_at-Triple :
      (id : String) (duration : ℕ) (p : Principal) (correlation : String) (at : ℕ)
      → Triple (Kept t0) (Kept t0) (acquire_at id duration p correlation at) (λ _. Kept t0)
  unfolding acquire_at
  acquire_at-Triple id duration p correlation at =
      Triple-bind _ _ (Triple-get_lease t0 id) λ previous.
        Triple-bind _ _ (expire_if_needed-Triple t0 id previous p.id correlation at) λ existing.
          Triple-bind _ _ (Triple-idle t0 id existing id _) λ _.
            Triple-bind _ _ (Triple-check-Kept t0 id existing _ _) λ _.
              Triple-bind _ _ (Triple-check-Kept t0 id existing _ _) λ _.
                Triple-bind _ _ (Triple-fresh t0 id existing "wlt") λ token.
                  let row = acquired_lease id existing p token at (at + duration) in
                  Triple-bind _ _
                    (Triple-put_lease t0 id existing row
                      (acquired_lease-IsSound id existing p token at (at + duration))
                      (acquired_lease-Advances id existing p token at (at + duration)))
                    λ _. Triple-bind _ _ (Triple-require_lease t0 id (some row)) λ lease.
                      Triple-bind _ _
                        (Triple-weaken (λ s h. h.0)
                          (Triple-append_event t0 id (some lease) lease lease_acquired p.id
                            correlation none none)
                          (λ a s h. h))
                        λ _. Triple-authority_result t0 id (some lease) lease at

  pub acquire-Triple :
      (id : String) (x : Option Lease) (duration : ℕ) (p : Principal) (correlation : String)
      → Triple
          (Kept t0)
          (Holds t0 id x)
          (acquire_worktree_writer_lease id duration p correlation)
          (λ _. Kept t0)
  unfolding acquire_worktree_writer_lease require_runtime
  acquire-Triple id x duration p correlation = Triple-bind _ _ (Triple-check-Kept t0 id x _ _) λ _.
      Triple-bind _ _ (Triple-check-Kept t0 id x _ _) λ _.
        Triple-bind _ _ (Triple-bounded_duration t0 id x duration) λ d.
          Triple-bind _ _ (Triple-now t0 id x)
            λ at. Triple-weaken (λ s h. h.0) (acquire_at-Triple id d p correlation at) (λ a s h. h)

  -- the end of a command that writes one row: read it back and record the event
  pub written-Triple :
      {A : Type 0} (id : String) (l : Lease) (type : LeaseEventType) (actor correlation : String)
      (reason evidence : Option String) (result : Lease → Command A)
      → ((m : Lease) → Triple (Kept t0) (Holds t0 id (some m)) (result m) (λ _. Kept t0))
      → Triple
          (Kept t0)
          (Holds t0 id (some l))
          (require_lease id >>= λ m.
            append_event m type actor correlation reason evidence >> result m)
          (λ _. Kept t0)
  written-Triple id l type actor correlation reason evidence result k =
      Triple-bind _ _ (Triple-require_lease t0 id (some l)) λ m.
        Triple-bind _ _
          (Triple-weaken (λ s h. h.0)
            (Triple-append_event t0 id (some m) m type actor correlation reason evidence)
            (λ a s h. h))
          λ _. k m

  pub renew-Triple :
      (a : LeaseAuthority) (x : Option Lease) (duration : ℕ) (p : Principal) (correlation : String)
      → Triple
          (Kept t0)
          (Holds t0 a.worktree_id x)
          (renew_worktree_writer_lease a duration p correlation)
          (λ _. Kept t0)
  unfolding renew_worktree_writer_lease require_runtime
  renew-Triple a x duration p correlation =
      Triple-bind _ _ (Triple-check-Kept t0 a.worktree_id x _ _) λ _.
        Triple-bind _ _ (Triple-bounded_duration t0 a.worktree_id x duration) λ d.
          Triple-bind _ _ (Triple-now t0 a.worktree_id x) λ at.
            Triple-bind _ _ (require_live_authority-Triple t0 x a p at correlation) λ l.
              Triple-assume λ held.
                Triple-bind _ _
                  (Triple-update_lease t0 a.worktree_id l (renew_lease l at (at + d))
                    (renew_lease-IsSound a.worktree_id l at (at + d) held) (omega arith))
                  λ _.
                    written-Triple a.worktree_id _ lease_renewed p.id correlation none none _
                      (λ m. Triple-authority_result t0 a.worktree_id (some m) m at)

  pub release-Triple :
      (a : LeaseAuthority) (x : Option Lease) (p : Principal) (correlation : String)
      → Triple
          (Kept t0)
          (Holds t0 a.worktree_id x)
          (release_worktree_writer_lease a p correlation)
          (λ _. Kept t0)
  unfolding release_worktree_writer_lease require_runtime
  release-Triple a x p correlation = Triple-bind _ _ (Triple-check-Kept t0 a.worktree_id x _ _) λ _.
      Triple-bind _ _ (Triple-now t0 a.worktree_id x) λ at.
        Triple-bind _ _ (require_live_authority-Triple t0 x a p at correlation) λ l.
          Triple-assume λ held.
            Triple-bind _ _ (Triple-idle t0 a.worktree_id (some l) a.worktree_id false) λ _.
              Triple-bind _ _
                (Triple-update_lease t0 a.worktree_id l (release_lease l at)
                  (release_lease-IsSound a.worktree_id l at held) (omega arith))
                λ _.
                  written-Triple a.worktree_id _ lease_released p.id correlation none none _
                    (λ m. Triple-result t0 a.worktree_id (some m) _)

  pub query-Triple :
      (id : String) (x : Option Lease) (p : Principal)
      → Triple (Kept t0) (Holds t0 id x) (get_worktree_writer_lease id p) (λ _. Kept t0)
  unfolding get_worktree_writer_lease require_runtime
  query-Triple id x p = Triple-bind _ _ (Triple-check-Kept t0 id x _ _) λ _.
      Triple-bind _ _ (Triple-check-Kept t0 id x _ _) λ _.
        Triple-bind _ _ (Triple-now t0 id x) λ at.
          Triple-bind _ _ (Triple-require_lease t0 id x) λ l.
            Triple-bind _ _
              (Triple-weaken (λ s h. h.0) (Triple-fresh t0 id (some l) "corr") (λ a s h. h))
              λ correlation.
                Triple-bind _ _ (expire_if_needed-Triple t0 id (some l) p.id correlation at)
                  λ y. Triple-result t0 id y _
