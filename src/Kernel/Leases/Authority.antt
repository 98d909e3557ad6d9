-- ===== src/Kernel/Leases/Authority.antt =====
-- packages/kernel/src/worktree-writer-leases.ts: who may use a lease.
use torsor.Prelude.{
  ℕ, String, Bool, false, not, ◌&&◌, Option, none, some, is_text, ◌==◌, if◌then◌else◌,
}
use torsor.Kernel.Errors.{
  KernelError, kernel_error, durable_kernel_error, conflict, conditional_check_failed,
}
use torsor.Kernel.Action.{pure, throw, check, ◌>>=◌, ◌>>◌}
use torsor.Kernel.Values.{require_non_empty}
use torsor.Kernel.Rows.{Principal, Lease, is_active, is_expired}
use torsor.Kernel.World.{Command}
use torsor.Kernel.Leases.Rows.{require_lease, expire_lease, is_due, is_lapsed}

-- WorktreeLeaseAuthority
pub record LeaseAuthority : Type 0 where
  pub worktree_id : String
  pub generation : ℕ
  pub fencing_token : ℕ
  pub lease_token : String

-- staleAuthority
abbrev pub stale_authority : Bool → KernelError
stale_authority durable = record { code = conditional_check_failed; durable = durable }

abbrev pub matches_authority : Lease → LeaseAuthority → Bool
matches_authority lease a =
    lease.generation == a.generation
    && lease.fencing_token == a.fencing_token
    && is_text lease.lease_token a.lease_token

-- `expiry !== null && !(expiry <= at)`
abbrev pub is_before_expiry : Option ℕ → ℕ → Bool
is_before_expiry none at = false
is_before_expiry (some expiry) at = not (is_due (some expiry) at)

-- The expiry of a lapsed lease is written down, and survives the throw.
unfoldable pub refuse_lapsed : Lease → Principal → ℕ → String → Command Unit
refuse_lapsed lease principal observed correlation =
    if is_lapsed lease observed
    then (do
      expire_lease lease principal.id correlation observed
      throw (durable_kernel_error conflict))
    else pure tt

unfoldable pub require_live_authority : LeaseAuthority → Principal → ℕ → String → Command Lease
require_live_authority a principal observed correlation = do
  require_non_empty a.worktree_id
  require_non_empty a.lease_token
  lease ← require_lease a.worktree_id
  refuse_lapsed lease principal observed correlation
  check (not (is_expired lease.status)) (kernel_error conflict)
  check (matches_authority lease a) (stale_authority false)
  check (is_active lease.status && is_text lease.holder_principal_id principal.id)
      (kernel_error conflict)
  check (is_before_expiry lease.expires_at observed) (kernel_error conflict)
  pure lease
