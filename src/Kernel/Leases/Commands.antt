-- ===== src/Kernel/Leases/Commands.antt =====
-- packages/kernel/src/worktree-writer-leases.ts: acquire, renew, release and the query.
use torsor.Prelude.{ℕ, ◌+◌, String, Bool, false, not, ◌&&◌, Option, none, some}
use torsor.Kernel.Errors.{kernel_error, domain_busy}
use torsor.Kernel.Action.{pure, check, ◌>>=◌, ◌>>◌}
use torsor.Kernel.Values.{require_non_empty, bounded_duration}
use torsor.Kernel.Rows.{
  Principal, Lease, LeaseStatus, active, released, is_active, is_expired, is_quarantined,
  lease_acquired, lease_renewed, lease_released,
}
use torsor.Kernel.World.{Command, now, fresh}
use torsor.Kernel.Results.{CommandResult, LeaseView, map_lease}
use torsor.Kernel.Physical.Idle.{assert_physical_worktree_idle}
use torsor.Kernel.Leases.Rows.{
  require_runtime, get_lease, require_lease, put_lease, update_lease, append_event,
  expire_if_needed, state_result, authority_result,
}
use torsor.Kernel.Leases.Authority.{LeaseAuthority, require_live_authority}

abbrev pub status_is : (LeaseStatus → Bool) → Option Lease → Bool
status_is test none = false
status_is test (some lease) = test lease.status

-- `existing ? integer(existing.revision) + 1 : 1`, and so for the generation and the fencing token
abbrev pub next_number : (Lease → ℕ) → Option Lease → ℕ
next_number number none = 1
next_number number (some lease) = number lease + 1

abbrev pub acquired_lease : String → Option Lease → Principal → String → ℕ → ℕ → Lease
acquired_lease id existing principal token observed expiry = record {
  worktree_id = id;
  revision = next_number (λ l. l.revision) existing;
  generation = next_number (λ l. l.generation) existing;
  fencing_token = next_number (λ l. l.fencing_token) existing;
  status = active;
  holder_principal_id = some principal.id;
  lease_token = some token;
  acquired_at = some observed;
  renewed_at = none;
  expires_at = some expiry;
  released_at = none;
  quarantine_reason = none;
  quarantine_token = none;
  quarantine_evidence = none;
  quarantined_at = none;
  quarantine_resolved_at = none;
  quarantine_resolution = none;
  updated_at = observed;
}

-- The part of the command after the checks of its arguments.
unfoldable pub acquire_at : String → ℕ → Principal → String → ℕ → Command CommandResult
acquire_at id duration principal correlation observed = do
  previous ← get_lease id
  existing ← expire_if_needed previous principal.id correlation observed
  assert_physical_worktree_idle id (status_is is_active previous && status_is is_expired existing)
  check (not (status_is is_active existing)) (kernel_error domain_busy)
  check (not (status_is is_quarantined existing)) (kernel_error domain_busy)
  token ← fresh "wlt"
  put_lease id (acquired_lease id existing principal token observed (observed + duration))
  lease ← require_lease id
  append_event lease lease_acquired principal.id correlation none none
  authority_result lease observed

unfoldable pub acquire_worktree_writer_lease :
    String → ℕ → Principal → String → Command CommandResult
acquire_worktree_writer_lease id lease_duration_ms principal correlation = do
  require_runtime principal
  require_non_empty id
  duration ← bounded_duration lease_duration_ms
  observed ← now
  acquire_at id duration principal correlation observed

abbrev pub renew_lease : Lease → ℕ → ℕ → Lease → Lease
renew_lease lease observed expiry row = record row {
  revision = lease.revision + 1;
  renewed_at = some observed;
  expires_at = some expiry;
  updated_at = observed;
}

unfoldable pub renew_worktree_writer_lease :
    LeaseAuthority → ℕ → Principal → String → Command CommandResult
renew_worktree_writer_lease a lease_duration_ms principal correlation = do
  require_runtime principal
  duration ← bounded_duration lease_duration_ms
  observed ← now
  lease ← require_live_authority a principal observed correlation
  update_lease a.worktree_id (renew_lease lease observed (observed + duration))
  renewed ← require_lease a.worktree_id
  append_event renewed lease_renewed principal.id correlation none none
  authority_result renewed observed

abbrev pub release_lease : Lease → ℕ → Lease → Lease
release_lease lease observed row = record row {
  revision = lease.revision + 1;
  status = released;
  holder_principal_id = none;
  lease_token = none;
  expires_at = none;
  released_at = some observed;
  updated_at = observed;
}

unfoldable pub release_worktree_writer_lease :
    LeaseAuthority → Principal → String → Command CommandResult
release_worktree_writer_lease a principal correlation = do
  require_runtime principal
  observed ← now
  lease ← require_live_authority a principal observed correlation
  assert_physical_worktree_idle a.worktree_id false
  update_lease a.worktree_id (release_lease lease observed)
  gone ← require_lease a.worktree_id
  append_event gone lease_released principal.id correlation none none
  pure (state_result gone none)

abbrev pub view_of : Option Lease → Option LeaseView
view_of none = none
view_of (some lease) = some (map_lease lease)

-- A query that writes: an expiry that it notices is recorded.
unfoldable pub get_worktree_writer_lease : String → Principal → Command (Option LeaseView)
get_worktree_writer_lease id principal = do
  require_runtime principal
  require_non_empty id
  observed ← now
  lease ← require_lease id
  correlation ← fresh "corr"
  current ← expire_if_needed (some lease) principal.id correlation observed
  pure (view_of current)
