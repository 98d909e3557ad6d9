-- ===== src/Kernel/Leases/Rows.antt =====
-- packages/kernel/src/worktree-writer-leases.ts: reads and writes of a lease row, and its expiry.
use torsor.Prelude.{
  ℕ, ◌+◌, String, Bool, false, ◌&&◌, Option, none, some, [], ◌∷◌, ◌++◌, leb, str_eq, if◌then◌else◌,
}
use torsor.Kernel.Errors.{kernel_error, forbidden, not_found, internal}
use torsor.Kernel.Action.{pure, gets, modify, check, or_throw, ◌>>=◌, ◌>>◌}
use torsor.Kernel.Rows.{
  Principal, Lease, LeaseEventType, lease_expired, expired, is_runtime, is_active,
}
use torsor.Kernel.World.{Command, now, fresh}
use torsor.Kernel.Results.{CommandResult, bare_result, map_lease}

unfoldable pub require_runtime : Principal → Command Unit
require_runtime principal = check (is_runtime principal.kind) (kernel_error forbidden)

unfoldable pub get_lease : String → Command (Option Lease)
get_lease id = gets (λ w. w.leases id)

unfoldable pub require_lease : String → Command Lease
require_lease id = do found ← get_lease id; or_throw found (kernel_error not_found)

-- INSERT ... ON CONFLICT(worktree_id) DO UPDATE
unfoldable pub put_lease : String → Lease → Command Unit
put_lease id row = modify λ w. record w {
  db = record w.db { leases = λ j. if str_eq j id then some row else w.leases j };
}

abbrev pub map_row : (Lease → Lease) → Option Lease → Option Lease
map_row change none = none
map_row change (some row) = some (change row)

-- UPDATE worktree_writer_leases SET ... WHERE worktree_id = ?
unfoldable pub update_lease : String → (Lease → Lease) → Command Unit
update_lease id change = modify λ w. record w {
  db = record w.db {
    leases = λ j. if str_eq j id then map_row change (w.leases j) else w.leases j;
  };
}

unfoldable pub append_event :
    Lease → LeaseEventType → String → String → Option String → Option String → Command Unit
append_event lease type actor correlation reason evidence = do
  id ← fresh "worktree_writer_lease_event"
  occurred ← now
  modify λ w. record w {
    db = record w.db {
      lease_events =
          w.lease_events
          ++ record {
            id = id;
            worktree_id = lease.worktree_id;
            type = type;
            revision = lease.revision;
            generation = lease.generation;
            fencing_token = lease.fencing_token;
            actor_principal_id = actor;
            holder_principal_id = lease.holder_principal_id;
            expires_at = lease.expires_at;
            reason = reason;
            evidence = evidence;
            correlation_id = correlation;
            occurred_at = occurred;
          }
            ∷ [];
    };
  }

-- `expiry !== null && expiry <= at`
abbrev pub is_due : Option ℕ → ℕ → Bool
is_due none at = false
is_due (some expiry) at = leb expiry at

-- The lease is Active and its time has come.
abbrev pub is_lapsed : Lease → ℕ → Bool
is_lapsed lease at = is_active lease.status && is_due lease.expires_at at

abbrev pub expire : ℕ → Lease → Lease
expire at row = record row {
  revision = row.revision + 1;
  status = expired;
  holder_principal_id = none;
  lease_token = none;
  expires_at = none;
  updated_at = at;
}

unfoldable pub expire_lease : Lease → String → String → ℕ → Command (Option Lease)
expire_lease lease actor correlation at = do
  update_lease lease.worktree_id (expire at)
  gone ← require_lease lease.worktree_id
  append_event gone lease_expired actor correlation (some "lease_expired") none
  pure (some gone)

unfoldable pub expire_if_needed : Option Lease → String → String → ℕ → Command (Option Lease)
expire_if_needed none actor correlation at = pure none
expire_if_needed (some lease) actor correlation at =
    if is_lapsed lease at then expire_lease lease actor correlation at else pure (some lease)

unfoldable pub state_result : Lease → Option String → CommandResult
state_result lease quarantine_token = record (bare_result lease.worktree_id) {
  revision = some lease.revision;
  lease_generation = some lease.generation;
  fencing_token = some lease.fencing_token;
  quarantine_token = quarantine_token;
  worktree_writer_lease = some (map_lease lease);
}

abbrev pub authority_view : Lease → String → ℕ → ℕ → CommandResult
authority_view lease token expiry observed = record (bare_result lease.worktree_id) {
  revision = some lease.revision;
  lease_token = some token;
  lease_expires_at = some expiry;
  authority_observed_at = some observed;
  lease_generation = some lease.generation;
  fencing_token = some lease.fencing_token;
  worktree_writer_lease = some (map_lease lease);
}

unfoldable pub authority_result : Lease → ℕ → Command CommandResult
authority_result lease observed = do
  token ← or_throw lease.lease_token (kernel_error internal)
  expiry ← or_throw lease.expires_at (kernel_error internal)
  pure (authority_view lease token expiry observed)
