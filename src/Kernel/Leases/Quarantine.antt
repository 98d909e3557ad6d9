-- ===== src/Kernel/Leases/Quarantine.antt =====
-- packages/kernel/src/worktree-writer-leases.ts: quarantine and its resolution.
use torsor.Prelude.{
  ℕ, ◌+◌, String, Bool, true, false, not, ◌&&◌, ◌||◌, Option, none, some, is_text, is_none, ◌==◌,
  if◌then◌else◌,
}
use torsor.Kernel.Errors.{kernel_error, conflict, conditional_check_failed}
use torsor.Kernel.Action.{pure, check, ◌>>=◌, ◌>>◌}
use torsor.Kernel.Values.{require_non_empty}
use torsor.Kernel.Rows.{
  Principal, Lease, released, quarantined, is_active, is_quarantined, lease_quarantined,
  quarantine_resolved,
}
use torsor.Kernel.World.{Command, now, fresh}
use torsor.Kernel.Results.{CommandResult}
use torsor.Kernel.Physical.Idle.{assert_physical_worktree_idle}
use torsor.Kernel.Leases.Rows.{
  require_runtime, get_lease, require_lease, put_lease, update_lease, append_event,
  expire_if_needed, is_lapsed, state_result,
}
use torsor.Kernel.Leases.Authority.{stale_authority, is_before_expiry}
use torsor.Kernel.Leases.Commands.{status_is, next_number}

-- QuarantineWorktreeWriterLease
pub record QuarantineCommand : Type 0 where
  pub worktree_id : String
  pub reason : String
  pub evidence : Option String
  pub expected_generation : Option ℕ
  pub expected_fencing_token : Option ℕ
  pub lease_token : Option String

-- `expected === undefined || actual === expected`
abbrev pub allows_number : Option ℕ → (Lease → ℕ) → Option Lease → Bool
allows_number none number existing = true
allows_number (some n) number none = false
allows_number (some n) number (some lease) = number lease == n

-- `integer(actual) === expected`
abbrev pub is_number : Option ℕ → ℕ → Bool
is_number none n = false
is_number (some m) n = m == n

abbrev pub is_some_text : Option String → Option String → Bool
is_some_text actual none = false
is_some_text actual (some t) = is_text actual t

unfoldable pub non_empty_token : Option String → Command Unit
non_empty_token none = pure tt
non_empty_token (some token) = require_non_empty token

unfoldable pub require_quarantine_authority :
    QuarantineCommand → Option Lease → Principal → ℕ → Command Unit
require_quarantine_authority c none principal observed = pure tt
require_quarantine_authority c (some lease) principal observed =
    if not (is_active lease.status) then pure tt else do
      check
          (not (
            is_none c.expected_generation
            || is_none c.expected_fencing_token
            || is_none c.lease_token))
          (kernel_error conditional_check_failed)
      non_empty_token c.lease_token
      check
          (is_number c.expected_generation lease.generation
            && is_number c.expected_fencing_token lease.fencing_token
            && is_some_text lease.lease_token c.lease_token)
          (stale_authority false)
      check
          (is_text lease.holder_principal_id principal.id
            && is_before_expiry lease.expires_at observed)
          (kernel_error conflict)

abbrev pub is_lapsed? : Option Lease → ℕ → Bool
is_lapsed? none at = false
is_lapsed? (some lease) at = is_lapsed lease at

abbrev pub kept_time : (Lease → Option ℕ) → Option Lease → Option ℕ
kept_time time none = none
kept_time time (some lease) = time lease

abbrev pub kept_generation : Option Lease → ℕ
kept_generation none = 0
kept_generation (some lease) = lease.generation

abbrev pub quarantined_lease : QuarantineCommand → Option Lease → String → ℕ → Lease
quarantined_lease c existing token observed = record {
  worktree_id = c.worktree_id;
  revision = next_number (λ l. l.revision) existing;
  generation = kept_generation existing;
  fencing_token = next_number (λ l. l.fencing_token) existing;
  status = quarantined;
  holder_principal_id = none;
  lease_token = none;
  acquired_at = kept_time (λ l. l.acquired_at) existing;
  renewed_at = kept_time (λ l. l.renewed_at) existing;
  expires_at = none;
  released_at = none;
  quarantine_reason = some c.reason;
  quarantine_token = some token;
  quarantine_evidence = c.evidence;
  quarantined_at = some observed;
  quarantine_resolved_at = none;
  quarantine_resolution = none;
  updated_at = observed;
}

unfoldable pub quarantine_at : QuarantineCommand → Principal → String → ℕ → Command CommandResult
quarantine_at c principal correlation observed = do
  current ← get_lease c.worktree_id
  let lapsed = is_lapsed? current observed
  existing ← expire_if_needed current principal.id correlation observed
  check (not (status_is is_quarantined existing)) (kernel_error conflict)
  require_quarantine_authority c existing principal observed
  check (allows_number c.expected_generation (λ l. l.generation) existing) (stale_authority lapsed)
  check (allows_number c.expected_fencing_token (λ l. l.fencing_token) existing)
      (stale_authority lapsed)
  token ← fresh "wqt"
  put_lease c.worktree_id (quarantined_lease c existing token observed)
  lease ← require_lease c.worktree_id
  append_event lease lease_quarantined principal.id correlation (some c.reason) c.evidence
  pure (state_result lease (some token))

unfoldable pub quarantine_worktree_writer_lease :
    QuarantineCommand → Principal → String → Command CommandResult
quarantine_worktree_writer_lease c principal correlation = do
  require_runtime principal
  require_non_empty c.worktree_id
  require_non_empty c.reason
  observed ← now
  quarantine_at c principal correlation observed

-- ResolveWorktreeWriterLeaseQuarantine
pub record ResolveCommand : Type 0 where
  pub worktree_id : String
  pub expected_revision : ℕ
  pub expected_fencing_token : ℕ
  pub quarantine_token : String
  pub resolution : String

abbrev pub resolve_lease : ResolveCommand → Lease → ℕ → Lease → Lease
resolve_lease c lease observed row = record row {
  revision = lease.revision + 1;
  status = released;
  quarantine_reason = none;
  quarantine_token = none;
  quarantine_evidence = none;
  quarantined_at = none;
  quarantine_resolved_at = some observed;
  quarantine_resolution = some c.resolution;
  updated_at = observed;
}

unfoldable pub resolve_worktree_writer_lease_quarantine :
    ResolveCommand → Principal → String → Command CommandResult
resolve_worktree_writer_lease_quarantine c principal correlation = do
  require_runtime principal
  assert_physical_worktree_idle c.worktree_id false
  require_non_empty c.worktree_id
  require_non_empty c.quarantine_token
  require_non_empty c.resolution
  lease ← require_lease c.worktree_id
  check
      (lease.revision == c.expected_revision
        && lease.fencing_token == c.expected_fencing_token
        && is_text lease.quarantine_token c.quarantine_token)
      (kernel_error conditional_check_failed)
  check (is_quarantined lease.status) (kernel_error conflict)
  observed ← now
  update_lease c.worktree_id (resolve_lease c lease observed)
  resolved ← require_lease c.worktree_id
  append_event resolved quarantine_resolved principal.id correlation (some c.resolution) none
  pure (state_result resolved none)
