-- ===== src/Kernel/Physical/Commands.antt =====
-- packages/kernel/src/physical-worktrees.ts, physicalWorktreeCommand: the commands of an execution.
use torsor.Prelude.{
  ℕ, String, Bool, true, false, not, ◌&&◌, ◌||◌, Option, none, some, [], ◌∷◌, ◌++◌, leb, ◌==◌,
  any_row,
}
use torsor.Kernel.Errors.{kernel_error, conflict}
use torsor.Kernel.Action.{pure, check, gets, modify, ◌>>=◌, ◌>>◌}
use torsor.Kernel.Values.{require_non_empty}
use torsor.Kernel.Rows.{
  Principal, WorktreeExecution, ExecutionState, is_stopped, starting, running, stop_requested,
  stop_confirmed, force_terminated, uncertain, PermissionMode, Operation, write_probe,
  native_provider,
}
use torsor.Kernel.World.{Command, now, fresh}
use torsor.Kernel.Results.{CommandResult, bare_result}
use torsor.Kernel.Leases.Authority.{LeaseAuthority, require_live_authority}
use torsor.Kernel.Physical.Idle.{assert_physical_worktree_idle, is_unsettled}
use torsor.Kernel.Physical.Rows.{
  require_runtime, require_worktree, require_execution, is_execution, is_uncertain,
  update_execution, append_event, record_state, revoke_publication, Receipt, require_receipt, when,
}
use torsor.Kernel.Physical.Authority.{
  require_source_activation, require_executing_provider, assert_activation_writer_authority,
  assert_worktree_mutation,
}

-- WorktreeProviderBinding; its policy is always trusted-local
pub record ProviderBinding : Type 0 where
  pub provider_attempt_id : String
  pub permission_mode : PermissionMode

pub record StartCommand : Type 0 where
  pub authority : LeaseAuthority
  pub activation_id : String
  pub executor_id : String
  pub provider : Option ProviderBinding

abbrev pub operation_of : Option ProviderBinding → Operation
operation_of none = write_probe
operation_of (some b) = native_provider b.provider_attempt_id b.permission_mode

unfoldable pub require_provider : Option ProviderBinding → String → Command Unit
require_provider none activation_id = pure tt
require_provider (some b) activation_id =
    require_executing_provider b.provider_attempt_id activation_id

-- INSERT INTO worktree_executions, under UNIQUE (id) and worktree_unsettled_execution_idx; translateError
-- makes a Conflict of a violation.
unfoldable pub insert_execution : WorktreeExecution → Command Unit
insert_execution row = do
  clash ← gets (λ w.
      any_row (λ e. is_execution row.id e || is_unsettled row.worktree_id e) w.worktree_executions)
  check (not clash) (kernel_error conflict)
  modify
      λ w. record w { db = record w.db { worktree_executions = w.worktree_executions ++ row ∷ [] } }

abbrev pub started_execution : StartCommand → Principal → String → String → ℕ → WorktreeExecution
started_execution c principal id token at = record {
  id = id;
  worktree_id = c.authority.worktree_id;
  activation_id = c.activation_id;
  runtime_principal_id = principal.id;
  executor_id = c.executor_id;
  execution_token = token;
  generation = c.authority.generation;
  fencing_token = c.authority.fencing_token;
  operation = operation_of c.provider;
  state = starting;
  pid = none;
  authority_revoked = none;
  created_at = at;
}

abbrev pub execution_result : String → Option String → CommandResult
execution_result id token = record (bare_result id) { execution_token = token }

unfoldable pub start_worktree_execution : StartCommand → Principal → String → Command CommandResult
start_worktree_execution c principal correlation = do
  require_runtime principal
  require_non_empty c.executor_id
  assert_physical_worktree_idle c.authority.worktree_id false
  worktree ← require_worktree c.authority.worktree_id
  require_source_activation worktree.run_id c.activation_id
  require_provider c.provider c.activation_id
  assert_activation_writer_authority c.activation_id false false
  observed ← now
  _ ← require_live_authority c.authority principal observed correlation
  id ← fresh "worktree_execution"
  token ← fresh "execution_token"
  at ← now
  insert_execution (started_execution c principal id token at)
  append_event id starting "Durable intent before any file or process effect."
  pure (execution_result id (some token))

unfoldable pub recover_worktree_execution : String → String → Principal → Command CommandResult
recover_worktree_execution id reason principal = do
  require_runtime principal
  execution ← require_execution id
  require_non_empty reason
  revoke_publication execution reason
  when (not (is_stopped execution.state) && not (is_uncertain execution.state))
      (record_state execution uncertain reason)
  pure (bare_result id)

unfoldable pub revoke_worktree_execution_authority :
    Receipt → String → Principal → Command CommandResult
revoke_worktree_execution_authority receipt reason principal = do
  require_runtime principal
  execution ← require_execution receipt.execution_id
  require_receipt execution receipt principal
  require_non_empty reason
  revoke_publication execution reason
  pure (bare_result receipt.execution_id)

-- the table `allowed`
abbrev pub allows : ExecutionState → ExecutionState → Bool
allows starting starting = false
allows starting force_terminated = false
allows starting _ = true
allows running stop_requested = true
allows running stop_confirmed = true
allows running uncertain = true
allows running _ = false
allows stop_requested stop_confirmed = true
allows stop_requested force_terminated = true
allows stop_requested uncertain = true
allows stop_requested _ = false
allows uncertain stop_confirmed = true
allows uncertain force_terminated = true
allows uncertain _ = false
allows stop_confirmed _ = false
allows force_terminated _ = false

pub record RecordCommand : Type 0 where
  pub receipt : Receipt
  pub state : ExecutionState
  pub evidence : String
  pub pid : Option ℕ
  pub preserve_publication_authority : Bool

abbrev pub is_pid : Option ℕ → ℕ → Bool
is_pid none pid = true
is_pid (some old) pid = old == pid

-- The process of an execution is told once; a safe integer is at most 2 ^ 53 - 1.
unfoldable pub record_pid : WorktreeExecution → Option ℕ → Command Unit
record_pid execution none = pure tt
record_pid execution (some pid) = do
  check (leb 1 pid && leb pid 9007199254740991 && is_pid execution.pid pid) (kernel_error conflict)
  update_execution execution.id (λ e. record e { pid = some pid })

abbrev pub is_stop_requested : ExecutionState → Bool
is_stop_requested stop_requested = true
is_stop_requested _ = false

unfoldable pub record_worktree_execution : RecordCommand → Principal → Command CommandResult
record_worktree_execution c principal = do
  require_runtime principal
  execution ← require_execution c.receipt.execution_id
  require_receipt execution c.receipt principal
  require_non_empty c.evidence
  check (allows execution.state c.state) (kernel_error conflict)
  record_pid execution c.pid
  when (is_stop_requested c.state && not c.preserve_publication_authority)
      (revoke_publication execution "Execution stop revoked publication authority.")
  record_state execution c.state c.evidence
  pure (bare_result c.receipt.execution_id)

-- The commands of an execution, as physicalWorktreeCommand tells them apart.
pub data ExecutionCommand : Type 0 where
  start_execution : StartCommand → ExecutionCommand
  record_execution : RecordCommand → ExecutionCommand
  recover_execution : String → String → ExecutionCommand
  revoke_execution : Receipt → String → ExecutionCommand

unfoldable pub execution_command : ExecutionCommand → Principal → String → Command CommandResult
execution_command (start_execution c) principal correlation =
    start_worktree_execution c principal correlation
execution_command (record_execution c) principal correlation = record_worktree_execution c principal
execution_command (recover_execution id reason) principal correlation =
    recover_worktree_execution id reason principal
execution_command (revoke_execution receipt reason) principal correlation =
    revoke_worktree_execution_authority receipt reason principal

abbrev pub token_or_empty : Option String → String
token_or_empty none = ""
token_or_empty (some token) = token

unfoldable pub resolve_cached_worktree_execution :
    StartCommand → CommandResult → Principal → Command CommandResult
resolve_cached_worktree_execution c result principal = do
  require_provider c.provider c.activation_id
  assert_worktree_mutation c.authority
      (record {
        execution_id = result.entity_id;
        executor_id = c.executor_id;
        execution_token = token_or_empty result.execution_token;
      })
      principal
  pure result
