-- ===== src/Kernel/Physical/Authority.antt =====
-- packages/kernel/src/physical-worktrees.ts: what a process in a Worktree may still do.
use torsor.Prelude.{
  String, Bool, true, false, not, ◌&&◌, ◌||◌, Option, none, some, str_eq, is_none, leb, ◌==◌,
  first_row, where_rows, any_row, if◌then◌else◌,
}
use torsor.Kernel.Errors.{
  KernelError, Code, kernel_error, durable_kernel_error, not_found, forbidden, conflict,
  writer_authority_lost, internal,
}
use torsor.Kernel.Action.{pure, throw, check, gets, or_throw, catch, for_each, ◌>>=◌, ◌>>◌}
use torsor.Kernel.Rows.{
  Principal, PhysicalWorktree, is_ready, WorktreeExecution, ExecutionState, Operation, write_probe,
  native_provider, starting, running, stop_confirmed, force_terminated, uncertain, Lease,
  ProviderAttempt, AttemptStatus, started, acknowledged, attempt_completed, Activation, Run,
  RunState, completed, failed, waiting, is_agent, PublicEvent,
}
use torsor.Kernel.World.{Command, now, fresh}
use torsor.Kernel.Leases.Rows.{get_lease}
use torsor.Kernel.Leases.Authority.{LeaseAuthority, require_live_authority}
use torsor.Kernel.Activations.Validity.{
  require_run, require_activation, require_live_activation, run_generation, is_for_run,
  assert_activation_scope_current,
}
use torsor.Kernel.Activations.Actors.{
  require_principal, named_activation, authorize_activation_actor,
}
use torsor.Kernel.Physical.Rows.{
  require_runtime, require_worktree, require_execution, revoke_publication, Receipt,
  require_receipt, when,
}

unfoldable pub require_source_activation : String → String → Command Unit
require_source_activation run_id activation_id = do
  activation ← require_live_activation activation_id
  check (is_for_run activation run_id) (kernel_error forbidden)
  assert_activation_scope_current activation

unfoldable pub get_attempt : String → Command (Option ProviderAttempt)
get_attempt id = gets (λ w. first_row (λ a. str_eq a.id id) w.provider_attempts)

abbrev pub is_executing : AttemptStatus → Bool
is_executing started = true
is_executing acknowledged = true
is_executing _ = false

abbrev pub is_completed : AttemptStatus → Bool
is_completed attempt_completed = true
is_completed _ = false

unfoldable pub require_executing_provider : String → String → Command Unit
require_executing_provider provider_attempt_id activation_id = do
  found ← get_attempt provider_attempt_id
  attempt ← or_throw found (kernel_error not_found)
  check (str_eq attempt.activation_id activation_id) (kernel_error forbidden)
  check (is_executing attempt.status) (kernel_error conflict)

abbrev pub is_attempt_of : String → Bool → Option ProviderAttempt → Bool
is_attempt_of activation_id allow_committed none = false
is_attempt_of activation_id allow_committed (some attempt) =
    str_eq attempt.activation_id activation_id
    && (is_executing attempt.status || allow_committed && is_completed attempt.status)

-- The native ProviderAttempt of an execution still runs.
unfoldable pub require_native_attempt : Operation → String → Bool → Command Unit
require_native_attempt write_probe activation_id allow_committed = pure tt
require_native_attempt (native_provider attempt_id mode) activation_id allow_committed = do
  attempt ← get_attempt attempt_id
  check (is_attempt_of activation_id allow_committed attempt) (kernel_error writer_authority_lost)

-- the states in which an execution may publish
abbrev pub may_publish : ExecutionState → Bool
may_publish force_terminated = false
may_publish uncertain = false
may_publish _ = true

abbrev pub is_stop_confirmed : ExecutionState → Bool
is_stop_confirmed stop_confirmed = true
is_stop_confirmed _ = false

abbrev pub lease_token_of : Option Lease → Option String
lease_token_of none = none
lease_token_of (some lease) = lease.lease_token

-- `optionalText(lease.lease_token) ?? "revoked"`
abbrev pub token_or_revoked : Option String → String
token_or_revoked none = "revoked"
token_or_revoked (some token) = token

-- settledStates[reason] === state
abbrev pub is_settled_as : Option String → RunState → Bool
is_settled_as (some reason) completed = str_eq reason "run_completed"
is_settled_as (some reason) failed = str_eq reason "run_failed"
is_settled_as (some reason) waiting = str_eq reason "run_waiting"
is_settled_as _ _ = false

abbrev pub is_some_of : Option String → String → Bool
is_some_of none id = false
is_some_of (some a) id = str_eq a id

abbrev pub is_decision : String → String → PublicEvent → Bool
is_decision activation_id run_id event =
    is_some_of event.activation_id activation_id
    && str_eq event.entity_id run_id
    && (str_eq event.type "RunCompleted"
        || str_eq event.type "RunFailed"
        || str_eq event.type "RunWaiting")

-- The Run was settled by this Activation, which has not run out since.
unfoldable pub has_decision : Bool → Activation → Run → String → Command Bool
has_decision allow_committed activation run run_id = if not allow_committed then pure false else do
  at ← now
  if leb activation.expires_at at || not (is_none activation.finished_at) then pure false else do
    generation ← or_throw (run_generation activation) (kernel_error internal)
    decided ← gets (λ w. any_row (is_decision activation.id run_id) w.public_events)
    pure (
        generation == run.activation_generation
        && is_settled_as activation.revocation_reason run.state
        && decided)

-- The body of the try block for one execution.
unfoldable pub require_execution_authority :
    WorktreeExecution → PhysicalWorktree → Option Lease → String → Bool → Bool → Command Unit
require_execution_authority execution worktree lease activation_id require_stopped allow_committed =
    do
      require_native_attempt execution.operation activation_id allow_committed
      revoked ← gets (λ w. any_row (str_eq activation_id) w.local_worktree_revocations)
      check
          (not revoked
            && is_none execution.authority_revoked
            && is_ready worktree.state
            && not (is_none lease)
            && may_publish execution.state
            && (not require_stopped || is_stop_confirmed execution.state))
          (kernel_error writer_authority_lost)
      principal ← require_principal execution.runtime_principal_id
      at ← now
      correlation ← fresh "corr"
      _ ←
          require_live_authority
            (record {
              worktree_id = execution.worktree_id;
              generation = execution.generation;
              fencing_token = execution.fencing_token;
              lease_token = token_or_revoked (lease_token_of lease);
            })
            principal at correlation
      activation ← require_activation activation_id
      run ← require_run worktree.run_id
      decided ← has_decision allow_committed activation run worktree.run_id
      when (not decided) (require_source_activation worktree.run_id activation_id)

abbrev pub is_internal : Code → Bool
is_internal internal = true
is_internal _ = false

-- The catch block: the revocation survives the throw.
unfoldable pub lose_authority : WorktreeExecution → KernelError → Command Unit
lose_authority execution error = if is_internal error.code then throw error else do
  revoke_publication execution "Controlled Worktree publication authority was lost."
  throw (durable_kernel_error writer_authority_lost)

unfoldable pub assert_execution_authority : String → Bool → Bool → WorktreeExecution → Command Unit
assert_execution_authority activation_id require_stopped allow_committed execution = do
  worktree ← require_worktree execution.worktree_id
  lease ← get_lease execution.worktree_id
  catch
      (require_execution_authority execution worktree lease activation_id require_stopped
        allow_committed)
      (lose_authority execution)

unfoldable pub assert_activation_writer_authority : String → Bool → Bool → Command Unit
assert_activation_writer_authority activation_id require_stopped allow_committed = do
  executions ←
      gets (λ w. where_rows (λ e. str_eq e.activation_id activation_id) w.worktree_executions)
  for_each (assert_execution_authority activation_id require_stopped allow_committed) executions

abbrev pub may_mutate : ExecutionState → Bool
may_mutate starting = true
may_mutate running = true
may_mutate _ = false

abbrev pub is_fenced_by : LeaseAuthority → WorktreeExecution → Bool
is_fenced_by a execution =
    str_eq execution.worktree_id a.worktree_id
    && execution.generation == a.generation
    && execution.fencing_token == a.fencing_token

unfoldable pub assert_worktree_mutation : LeaseAuthority → Receipt → Principal → Command Unit
assert_worktree_mutation a receipt principal = do
  require_runtime principal
  execution ← require_execution receipt.execution_id
  require_receipt execution receipt principal
  worktree ← require_worktree a.worktree_id
  check (is_fenced_by a execution && may_mutate execution.state && is_ready worktree.state)
      (kernel_error conflict)
  assert_activation_writer_authority execution.activation_id false false
  at ← now
  correlation ← fresh "corr"
  _ ← require_live_authority a principal at correlation
  pure tt

unfoldable pub assert_worktree_publication : LeaseAuthority → Receipt → Principal → Command Unit
assert_worktree_publication a receipt principal = do
  require_runtime principal
  execution ← require_execution receipt.execution_id
  require_receipt execution receipt principal
  check (is_fenced_by a execution) (kernel_error writer_authority_lost)
  assert_activation_writer_authority execution.activation_id true false
  at ← now
  correlation ← fresh "corr"
  _ ← require_live_authority a principal at correlation
  pure tt

-- The part of assertWriterContextAuthority that an agent's Activation with executions takes.
unfoldable pub assert_context_activation :
    Principal → Option String → Bool → Option String → Command Unit
assert_context_activation principal context require_stopped none = pure tt
assert_context_activation principal context require_stopped (some id) = do
  executes ← gets (λ w. any_row (λ e. str_eq e.activation_id id) w.worktree_executions)
  when executes (do
    activation ← require_activation id
    authorize_activation_actor principal context activation true
    assert_activation_writer_authority id require_stopped false)

unfoldable pub assert_writer_context_authority : Principal → Option String → Bool → Command Unit
assert_writer_context_authority principal context require_stopped =
    when (is_agent principal.kind)
      (assert_context_activation principal context require_stopped (named_activation context))
