-- ===== src/Kernel/Leases/Changes.antt =====
-- packages/kernel/src/worktree-writer-leases.ts: every row that a command writes is sound.
use torsor.Prelude.{ℕ, String, ◌≡◌, true, Option, none, some, arith}
use torsor.Kernel.Rows.{Principal, Lease, is_active, is_quarantined}
use torsor.Kernel.Leases.Sound.{IsSound, IsSound?, Advances}
use torsor.Kernel.Leases.Commands.{acquired_lease, renew_lease, release_lease}
use torsor.Kernel.Leases.Quarantine.{
  QuarantineCommand, quarantined_lease, ResolveCommand, resolve_lease,
}

pub acquired_lease-IsSound :
    (id : String) (x : Option Lease) (p : Principal) (token : String) (at expiry : ℕ)
    → IsSound? id x
    → IsSound id (acquired_lease id x p token at expiry)
acquired_lease-IsSound id none p token at expiry h = ground arith
acquired_lease-IsSound id (some l) p token at expiry h = ground arith

pub acquired_lease-Advances :
    (id : String) (x : Option Lease) (p : Principal) (token : String) (at expiry : ℕ)
    → IsSound? id x
    → Advances x (some (acquired_lease id x p token at expiry))
acquired_lease-Advances id none p token at expiry h = tt
acquired_lease-Advances id (some l) p token at expiry h = omega arith

pub renew_lease-IsSound :
    (id : String) (l : Lease) (at expiry : ℕ)
    → is_active l.status ≡ true
    → IsSound id l
    → IsSound id (renew_lease l at expiry l)
renew_lease-IsSound id l at expiry held h = ground arith

pub release_lease-IsSound :
    (id : String) (l : Lease) (at : ℕ)
    → is_active l.status ≡ true
    → IsSound id l
    → IsSound id (release_lease l at l)
release_lease-IsSound id l at held h = ground arith

pub quarantined_lease-IsSound :
    (c : QuarantineCommand) (x : Option Lease) (token : String) (at : ℕ)
    → IsSound? c.worktree_id x
    → IsSound c.worktree_id (quarantined_lease c x token at)
quarantined_lease-IsSound c none token at h = ground arith
quarantined_lease-IsSound c (some l) token at h = ground arith

pub quarantined_lease-Advances :
    (c : QuarantineCommand) (x : Option Lease) (token : String) (at : ℕ)
    → Advances x (some (quarantined_lease c x token at))
quarantined_lease-Advances c none token at = tt
quarantined_lease-Advances c (some l) token at = omega arith

pub resolve_lease-IsSound :
    (c : ResolveCommand) (l : Lease) (at : ℕ)
    → is_quarantined l.status ≡ true
    → IsSound c.worktree_id l
    → IsSound c.worktree_id (resolve_lease c l at l)
resolve_lease-IsSound c l at held h = ground arith
