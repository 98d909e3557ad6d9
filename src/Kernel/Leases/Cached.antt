-- ===== src/Kernel/Leases/Cached.antt =====
-- packages/kernel/src/worktree-writer-leases.ts: the answers to repeated lease commands.
use torsor.Prelude.{
  ℕ, ◌+◌, ◌<◌, String, ◌≡◌, refl, Bool, false, not, ◌&&◌, Option, none, some, arith, str_eq, eq_iff,
  is_none, is_text, if◌then◌else◌,
}
use torsor.Kernel.Errors.{kernel_error, durable_kernel_error, conflict}
use torsor.Kernel.Action.{pure, throw, check, ◌>>=◌, ◌>>◌, returned}
use torsor.Kernel.Rows.{Principal, Lease, is_active, is_quarantined}
use torsor.Kernel.World.{World, Command, now, fresh}
use torsor.Kernel.Results.{CommandResult}
use torsor.Kernel.Leases.Rows.{
  require_lease, get_lease, expire_if_needed, expire_lease, is_lapsed, authority_view,
  authority_result, state_result,
}
use torsor.Kernel.Leases.Authority.{is_before_expiry}
use torsor.Kernel.Leases.Quarantine.{is_number, is_some_text}
use torsor.Kernel.Leases.Commands.{acquire_worktree_writer_lease}
use torsor.Kernel.Leases.Sound.{LeasesSound}
use torsor.Kernel.Leases.Grants.{Grants, Granted}
use torsor.Kernel.Leases.Exclusion.{acquire-Granted}

-- `!!token`: there is a token, and it is not empty
abbrev pub has_token : Option String → Bool
has_token none = false
has_token (some token) = not (str_eq token "")

-- The expiry of a lapsed lease is written down, and survives the throw.
unfoldable pub refuse_cached : Lease → Principal → ℕ → Command Unit
refuse_cached lease principal observed =
    if is_lapsed lease observed
    then (do
      correlation ← fresh "corr"
      _ ← expire_if_needed (some lease) principal.id correlation observed
      throw (durable_kernel_error conflict))
    else pure tt

unfoldable pub resolve_cached_lease_authority :
    String → CommandResult → Principal → Command CommandResult
resolve_cached_lease_authority id result principal = do
  check (not (is_none result.worktree_writer_lease) && has_token result.lease_token)
      (kernel_error conflict)
  lease ← require_lease id
  observed ← now
  refuse_cached lease principal observed
  check
      (is_active lease.status
        && is_text lease.holder_principal_id principal.id
        && is_some_text lease.lease_token result.lease_token
        && is_number result.lease_generation lease.generation
        && is_number result.fencing_token lease.fencing_token
        && is_before_expiry lease.expires_at observed)
      (kernel_error conflict)
  authority_result lease observed

unfoldable pub resolve_cached_lease_quarantine :
    String → CommandResult → Principal → Command CommandResult
resolve_cached_lease_quarantine id result principal = do
  check
      (has_token result.quarantine_token
        && not (is_none result.revision)
        && not (is_none result.fencing_token))
      (kernel_error conflict)
  lease ← require_lease id
  observed ← now
  refuse_cached lease principal observed
  check
      (is_quarantined lease.status
        && is_number result.revision lease.revision
        && is_number result.fencing_token lease.fencing_token
        && is_some_text lease.quarantine_token result.quarantine_token)
      (kernel_error conflict)
  pure (state_result lease result.quarantine_token)

-- A result that was granted is confirmed while its lease lasts.
confirmed :
    (id : String) (p : Principal) (expiry : ℕ) (r : CommandResult) (l : Lease) (w : World)
    (token : String)
    → w.leases id ≡ some l
    → Grants p expiry r l
    → r.lease_token ≡ some token
    → str_eq token "" ≡ false
    → w.clock w.reads < expiry
    → resolve_cached_lease_authority id r p w
      ≡ returned
          (authority_view l token expiry (w.clock w.reads))
          (record w { reads = w.reads + 1 })
unfolding resolve_cached_lease_authority require_lease get_lease refuse_cached expire_if_needed
    expire_lease authority_result now fresh ◌>>=◌
confirmed id p expiry r l w token e g t full soon =
    ground (arith, eq_iff p.id p.id, eq_iff token token)

-- A repeated acquisition: once an acquisition has returned a token that is not empty, the answer to
-- its repetition, asked for before the lease ends, returns the same token, generation and fencing
-- token with the end of the lease, and writes nothing.
pub acquire-resolve_cached :
    (id : String) (d : ℕ) (p : Principal) (correlation : String) (w w₁ : World) (r : CommandResult)
    (token : String)
    → LeasesSound w.leases
    → acquire_worktree_writer_lease id d p correlation w ≡ returned r w₁
    → r.lease_token ≡ some token
    → str_eq token "" ≡ false
    → w₁.clock w₁.reads < w.clock w.reads + d
    → (l : Lease) × ((w₁.leases id ≡ some l)
        × ((r.lease_generation ≡ some l.generation) × (r.fencing_token ≡ some l.fencing_token))
        × (resolve_cached_lease_authority id r p w₁
            ≡ returned
                (authority_view l token (w.clock w.reads + d) (w₁.clock w₁.reads))
                (record w₁ { reads = w₁.reads + 1 })))
acquire-resolve_cached id d p correlation w w₁ r token s h t full soon =
    found (w₁.leases id) refl ((acquire-Granted id d p correlation w s h).2)
  where
    found :
        (x : Option Lease)
        → w₁.leases id ≡ x
        → Granted p (w.clock w.reads + d) r (w.leases id) x
        → (l : Lease) × ((w₁.leases id ≡ some l)
            × ((r.lease_generation ≡ some l.generation) × (r.fencing_token ≡ some l.fencing_token))
            × (resolve_cached_lease_authority id r p w₁
                ≡ returned
                    (authority_view l token (w.clock w.reads + d) (w₁.clock w₁.reads))
                    (record w₁ { reads = w₁.reads + 1 })))
    found none e g = elim g [ ]
    found (some l) e g = (
      l,
      (
        e,
        (g.0.generation, g.0.fencing),
        confirmed id p (w.clock w.reads + d) r l w₁ token e g.0 t full soon,
      ),
    )
