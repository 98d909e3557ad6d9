-- ===== src/Kernel/Execution/Activities.antt =====
-- packages/kernel/src/execution.ts and runs.ts: the activity of a Run, its late output, and the Run
-- that waits since its provider failed.
mod Record
unfoldable pub use Record.*
use torsor.Prelude.{
  ℕ, ◌+◌, String, Bool, true, false, not, ◌&&◌, Option, none, some, [], ◌∷◌, ◌++◌, str_eq, is_text,
  given, leb, ◌==◌, trim, if◌then◌else◌,
}
use torsor.Kernel.Errors.{
  Code, kernel_error, forbidden, conflict, invalid_command, stale_revision, terminal_run,
}
use torsor.Kernel.Action.{pure, check, modify, or_throw, ◌>>=◌, ◌>>◌}
use torsor.Kernel.Rows.{
  Principal, is_runtime, Run, RunState, is_active_run, is_terminal_run_state, Activation,
  AttemptStatus, attempt_failed, unknown, RunActivity, Retention, durable, Json, string, number,
  object, field, end,
}
use torsor.Kernel.World.{Command, now, fresh}
use torsor.Kernel.Values.{require_non_empty}
use torsor.Kernel.Results.{CommandResult, bare_result}
use torsor.Kernel.Guards.{require_kind}
use torsor.Kernel.Outbox.Rows.{enqueue_outbox}
use torsor.Kernel.Activations.Validity.{
  same_number, run_generation, require_run, require_activation, require_live_activation, is_for_run,
  assert_activation_scope_current, is_current_run_activation,
}
use torsor.Kernel.Activations.Actors.{authorize_activation_actor}
use torsor.Kernel.Runs.Events.{EventInput, emit_event, emit_thread_event, revoke_run_activations}
use torsor.Kernel.Runs.Commands.{update_run, wait, causation}
use torsor.Kernel.Execution.Attempts.{require_provider_attempt, status_word}

abbrev pub may_park : AttemptStatus → Bool
may_park attempt_failed = true
may_park unknown = true
may_park _ = false

abbrev pub parking_code : RunState → Code
parking_code state = if is_terminal_run_state state then terminal_run else conflict

-- ParkRunAfterProviderAttemptFailureCommand
pub record ParkRun : Type 0 where
  pub run_id : String
  pub provider_attempt_id : String
  pub expected_run_revision : ℕ
  pub expected_activation_generation : ℕ
  pub reason : String

-- the checks of the Run, and the Run
unfoldable pub require_parked_run : ParkRun → Command Run
require_parked_run c = do
  run ← require_run c.run_id
  check (run.revision == c.expected_run_revision) (kernel_error stale_revision)
  check (is_active_run run.state) (kernel_error (parking_code run.state))
  check (run.activation_generation == c.expected_activation_generation) (kernel_error conflict)
  pure run

-- the checks of the attempt: its Activation and its status
unfoldable pub require_parking_activation : ParkRun → Run → Command (Activation × AttemptStatus)
require_parking_activation c run = do
  attempt ← require_provider_attempt c.provider_attempt_id
  check (is_text attempt.run_id c.run_id) (kernel_error forbidden)
  activation ← require_activation attempt.activation_id
  check (is_for_run activation c.run_id && str_eq activation.agent_id run.owner_agent_id)
      (kernel_error forbidden)
  check (same_number (run_generation activation) (some c.expected_activation_generation))
      (kernel_error conflict)
  check (may_park attempt.status) (kernel_error conflict)
  pure (activation, attempt.status)

unfoldable pub park_run_after_provider_attempt_failure :
    ParkRun → Principal → String → Command CommandResult
park_run_after_provider_attempt_failure c principal correlation = do
  require_kind principal is_runtime
  require_non_empty c.reason
  check (leb 1 c.expected_activation_generation) (kernel_error invalid_command)
  run ← require_parked_run c
  found ← require_parking_activation c run
  at ← now
  update_run c.run_id (wait (run.revision + 1) at)
  revoke_run_activations c.run_id "provider_attempt_failure_parked" at
  activity ← insert_activity (record {
    run_id = c.run_id;
    activation_id = found.0.id;
    provider_attempt_id = some c.provider_attempt_id;
    kind = "provider_attempt_failure_parked";
    payload = object (
        field "providerAttemptStatus" (string (status_word found.1)) (
          field "reason" (string (trim c.reason))
            (field "runRevision" (number (run.revision + 1)) end)));
    retention_class = durable;
  })
  cursor ← emit_thread_event (record {
    type = "RunWaiting";
    project_id = run.project_id;
    channel_id = run.home_channel_id;
    thread_root_id = run.thread_root_id;
    entity_type = "Run";
    entity_id = c.run_id;
    actor_principal_id = principal.id;
    activation_id = some found.0.id;
    causation_id = some c.provider_attempt_id;
    correlation_id = correlation;
    payload = object (
        field "revision" (number (run.revision + 1)) (
          field "reason" (string (trim c.reason)) (
            field "providerAttemptId" (string c.provider_attempt_id) (
              field "providerAttemptStatus" (string (status_word found.1))
                (field "activityId" (string activity.id) end)))));
  })
  enqueue_outbox "run.waiting" "Run" c.run_id (
      object (
        field "revision" (number (run.revision + 1)) (
          field "reason" (string (trim c.reason)) (
            field "providerAttemptId" (string c.provider_attempt_id)
              (field "providerAttemptStatus" (string (status_word found.1)) end)))))
  pure (record (bare_result c.run_id) {
    revision = some (run.revision + 1);
    thread_cursor = some cursor;
  })
