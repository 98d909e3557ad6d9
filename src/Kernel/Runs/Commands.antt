-- ===== src/Kernel/Runs/Commands.antt =====
-- packages/kernel/src/runs.ts: cancellation, failure and waiting of a Run.
use torsor.Prelude.{ℕ, ◌+◌, String, Bool, ◌&&◌, Option, none, some, str_eq, update_rows}
use torsor.Kernel.Errors.{kernel_error, conflict}
use torsor.Kernel.Action.{pure, check, modify, ◌>>=◌, ◌>>◌}
use torsor.Kernel.Values.{require_non_empty}
use torsor.Kernel.Rows.{
  Principal, is_human, Run, RunState, failed, cancelled, waiting, is_active_run, RunInput,
  abandoned, is_pending, string, number, object, field, end,
}
use torsor.Kernel.World.{Command, now}
use torsor.Kernel.Results.{CommandResult, bare_result}
use torsor.Kernel.Guards.{require_kind}
use torsor.Kernel.Outbox.Rows.{enqueue_outbox}
use torsor.Kernel.Activations.Actors.{require_mutable_run, require_run_activation}
use torsor.Kernel.Runs.Events.{emit_thread_event, revoke_run_activations, causal_capacity}

-- "Failed" | "Cancelled"
pub data Ending : Type 0 where
  ends_failed ends_cancelled : Ending

abbrev pub ending_state : Ending → RunState
ending_state ends_failed = failed
ending_state ends_cancelled = cancelled

abbrev pub ending_reason : Ending → String
ending_reason ends_failed = "run_failed"
ending_reason ends_cancelled = "run_cancelled"

abbrev pub ending_event : Ending → String
ending_event ends_failed = "RunFailed"
ending_event ends_cancelled = "RunCancelled"

abbrev pub ending_topic : Ending → String
ending_topic ends_failed = "run.failed"
ending_topic ends_cancelled = "run.cancelled"

abbrev pub is_run : String → Run → Bool
is_run id run = str_eq run.id id

abbrev pub is_pending_of : String → RunInput → Bool
is_pending_of run_id input = str_eq input.run_id run_id && is_pending input.disposition

abbrev pub abandon : String → RunInput → RunInput
abandon reason input = record input {
  disposition = abandoned;
  disposition_revision = input.disposition_revision + 1;
  disposition_reason = some reason;
}

-- UPDATE run_inputs ... WHERE run_id = ? AND disposition = 'Pending'
unfoldable pub abandon_inputs : String → String → Command Unit
abandon_inputs run_id reason = modify λ w. record w {
  db = record w.db {
    run_inputs = update_rows (is_pending_of run_id) (abandon reason) w.run_inputs;
  };
}

-- UPDATE runs SET ... WHERE id = ?
unfoldable pub update_run : String → (Run → Run) → Command Unit
update_run id change =
    modify λ w. record w { db = record w.db { runs = update_rows (is_run id) change w.runs } }

abbrev pub end_run : Ending → ℕ → ℕ → String → Run → Run
end_run ending revision at reason run = record run {
  state = ending_state ending;
  revision = revision;
  updated_at = at;
  terminal_reason = some reason;
}

-- `activationId ?? runId`
abbrev pub causation : Option String → String → String
causation none run_id = run_id
causation (some id) run_id = id

unfoldable pub terminate_run :
    Run → Ending → String → Principal → Option String → String → Command CommandResult
terminate_run run ending reason principal activation_id correlation = do
  require_non_empty reason
  abandon_inputs run.id (ending_reason ending)
  at ← now
  update_run run.id (end_run ending (run.revision + 1) at reason)
  revoked ← now
  revoke_run_activations run.id (ending_reason ending) revoked
  capacity ← causal_capacity run.causal_root_id
  cursor ← emit_thread_event (record {
    type = ending_event ending;
    project_id = run.project_id;
    channel_id = run.home_channel_id;
    thread_root_id = run.thread_root_id;
    entity_type = "Run";
    entity_id = run.id;
    actor_principal_id = principal.id;
    activation_id = activation_id;
    causation_id = some (causation activation_id run.id);
    correlation_id = correlation;
    payload =
        object
          (field "revision" (number (run.revision + 1)) (field "reason" (string reason) capacity));
  })
  enqueue_outbox (ending_topic ending) "Run" run.id
      (object (field "revision" (number (run.revision + 1)) (field "reason" (string reason) end)))
  pure (record (bare_result run.id) {
    revision = some (run.revision + 1);
    thread_cursor = some cursor;
  })

unfoldable pub cancel_run : String → ℕ → String → Principal → String → Command CommandResult
cancel_run run_id expected_revision reason principal correlation = do
  require_kind principal is_human
  run ← require_mutable_run run_id (some expected_revision)
  terminate_run run ends_cancelled reason principal none correlation

unfoldable pub fail_run :
    String → ℕ → String → Principal → Option String → String → Command CommandResult
fail_run run_id expected_revision reason principal context correlation = do
  run ← require_mutable_run run_id (some expected_revision)
  activation ← require_run_activation context principal run
  terminate_run run ends_failed reason principal (some activation.id) correlation

abbrev pub wait : ℕ → ℕ → Run → Run
wait revision at run = record run { state = waiting; revision = revision; updated_at = at }

unfoldable pub wait_run :
    String → ℕ → String → Principal → Option String → String → Command CommandResult
wait_run run_id expected_revision reason principal context correlation = do
  run ← require_mutable_run run_id (some expected_revision)
  activation ← require_run_activation context principal run
  check (is_active_run run.state) (kernel_error conflict)
  require_non_empty reason
  at ← now
  update_run run_id (wait (run.revision + 1) at)
  revoked ← now
  revoke_run_activations run_id "run_waiting" revoked
  cursor ← emit_thread_event (record {
    type = "RunWaiting";
    project_id = run.project_id;
    channel_id = run.home_channel_id;
    thread_root_id = run.thread_root_id;
    entity_type = "Run";
    entity_id = run_id;
    actor_principal_id = principal.id;
    activation_id = some activation.id;
    causation_id = some activation.id;
    correlation_id = correlation;
    payload =
        object (field "revision" (number (run.revision + 1)) (field "reason" (string reason) end));
  })
  enqueue_outbox "run.waiting" "Run" run_id
      (object (field "revision" (number (run.revision + 1)) (field "reason" (string reason) end)))
  pure (record (bare_result run_id) {
    revision = some (run.revision + 1);
    thread_cursor = some cursor;
  })
