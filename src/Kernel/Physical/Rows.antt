-- ===== src/Kernel/Physical/Rows.antt =====
-- packages/kernel/src/physical-worktrees.ts: reads and writes of Worktrees and executions.
use torsor.Prelude.{
  ℕ, String, Bool, true, false, ◌&&◌, ◌||◌, some, [], ◌∷◌, ◌++◌, str_eq, is_none, first_row,
  update_rows, if◌then◌else◌,
}
use torsor.Kernel.Errors.{kernel_error, not_found, forbidden}
use torsor.Kernel.Action.{pure, check, gets, or_throw, modify, ◌>>=◌, ◌>>◌}
use torsor.Kernel.Rows.{
  Principal, is_runtime, PhysicalWorktree, ready, unsafe, WorktreeState, WorktreeExecution,
  ExecutionState, is_stopped, force_terminated, uncertain,
}
use torsor.Kernel.World.{Command, now}
use torsor.Kernel.Physical.Idle.{is_worktree}

unfoldable pub require_runtime : Principal → Command Unit
require_runtime principal = check (is_runtime principal.kind) (kernel_error forbidden)

unfoldable pub require_worktree : String → Command PhysicalWorktree
require_worktree id = do
  found ← gets (λ w. first_row (is_worktree id) w.physical_worktrees)
  or_throw found (kernel_error not_found)

abbrev pub is_execution : String → WorktreeExecution → Bool
is_execution id execution = str_eq execution.id id

unfoldable pub require_execution : String → Command WorktreeExecution
require_execution id = do
  found ← gets (λ w. first_row (is_execution id) w.worktree_executions)
  or_throw found (kernel_error not_found)

-- UPDATE worktree_executions SET ... WHERE id = ?
unfoldable pub update_execution : String → (WorktreeExecution → WorktreeExecution) → Command Unit
update_execution id change = modify λ w. record w {
  db = record w.db {
    worktree_executions = update_rows (is_execution id) change w.worktree_executions;
  };
}

unfoldable pub append_event : String → ExecutionState → String → Command Unit
append_event id state evidence = do
  occurred ← now
  modify λ w. record w {
    db = record w.db {
      execution_events =
          w.execution_events
          ++ record {
            execution_id = id;
            state = state;
            evidence = evidence;
            occurred_at = occurred;
          }
            ∷ [];
    };
  }

-- AND authority_revoked_at IS NULL: an earlier revocation stays
abbrev pub revoke : ℕ → String → WorktreeExecution → WorktreeExecution
revoke at reason execution =
    if is_none execution.authority_revoked
    then record execution { authority_revoked = some (at, reason) }
    else execution

unfoldable pub revoke_publication : WorktreeExecution → String → Command Unit
revoke_publication execution reason = do at ← now; update_execution execution.id (revoke at reason)

abbrev pub is_uncertain : ExecutionState → Bool
is_uncertain uncertain = true
is_uncertain _ = false

abbrev pub is_abnormal : ExecutionState → Bool
is_abnormal uncertain = true
is_abnormal force_terminated = true
is_abnormal _ = false

abbrev pub worktree_state : ExecutionState → WorktreeState
worktree_state state = if is_uncertain state then unsafe else ready

-- UPDATE physical_worktrees SET state = ? WHERE worktree_id = ?
unfoldable pub set_worktree_state : String → WorktreeState → Command Unit
set_worktree_state id state = modify λ w. record w {
  db = record w.db {
    physical_worktrees =
        update_rows (is_worktree id) (λ t. record t { state = state }) w.physical_worktrees;
  };
}

unfoldable pub when : Bool → Command Unit → Command Unit
when test body = if test then body else pure tt

abbrev pub set_state : ExecutionState → WorktreeExecution → WorktreeExecution
set_state state execution = record execution { state = state }

unfoldable pub record_state : WorktreeExecution → ExecutionState → String → Command Unit
record_state execution state evidence = do
  when (is_abnormal state) (
      revoke_publication execution
        "Physical execution did not finish normally under confirmed authority.")
  update_execution execution.id (set_state state)
  when (is_uncertain state || is_stopped state)
      (set_worktree_state execution.worktree_id (worktree_state state))
  append_event execution.id state evidence

-- WorktreeExecutionReceipt
pub record Receipt : Type 0 where
  pub execution_id : String
  pub executor_id : String
  pub execution_token : String

unfoldable pub require_receipt : WorktreeExecution → Receipt → Principal → Command Unit
require_receipt execution receipt principal =
    check
      (str_eq execution.executor_id receipt.executor_id
        && str_eq execution.execution_token receipt.execution_token
        && str_eq execution.runtime_principal_id principal.id)
      (kernel_error forbidden)
