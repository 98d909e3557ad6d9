-- ===== src/Kernel/Execution/Activities/Record.antt =====
-- packages/kernel/src/execution.ts and runs.ts: the activity of a Run, and its late output.
use torsor.Prelude.{
  ℕ, ◌+◌, String, Bool, true, false, not, Option, none, some, [], ◌∷◌, ◌++◌, str_eq, is_text, given,
  if◌then◌else◌,
}
use torsor.Kernel.Errors.{kernel_error, forbidden, conflict, invalid_command}
use torsor.Kernel.Action.{pure, check, modify, or_throw, ◌>>=◌, ◌>>◌}
use torsor.Kernel.Rows.{
  Principal, Run, RunState, is_terminal_run_state, Activation, RunActivity, Retention, durable,
  Json, string, number, object, field, end,
}
use torsor.Kernel.World.{Command, now, fresh}
use torsor.Kernel.Values.{require_non_empty}
use torsor.Kernel.Results.{CommandResult, bare_result}
use torsor.Kernel.Activations.Validity.{
  require_run, require_activation, require_live_activation, is_for_run,
  assert_activation_scope_current, is_current_run_activation,
}
use torsor.Kernel.Activations.Actors.{authorize_activation_actor}
use torsor.Kernel.Runs.Events.{EventInput, emit_event}
use torsor.Kernel.Runs.Commands.{update_run, causation}
use torsor.Kernel.Execution.Attempts.{require_provider_attempt}

-- the answer of insertActivity
pub record Inserted : Type 0 where
  pub id : String
  pub sequence : ℕ

-- what insertActivity is given
pub record Activity : Type 0 where
  pub run_id : String
  pub activation_id : String
  pub provider_attempt_id : Option String
  pub kind : String
  pub payload : Json
  pub retention_class : Retention

abbrev pub activity_row : Activity → String → ℕ → ℕ → RunActivity
activity_row a id sequence at = record {
  id = id;
  run_id = a.run_id;
  activation_id = a.activation_id;
  provider_attempt_id = a.provider_attempt_id;
  sequence = sequence;
  kind = a.kind;
  payload = a.payload;
  retention_class = a.retention_class;
  created_at = at;
}

abbrev pub number_next : ℕ → Run → Run
number_next sequence run = record run { next_activity_sequence = sequence + 1 }

unfoldable pub insert_activity : Activity → Command Inserted
insert_activity a = do
  require_non_empty a.kind
  run ← require_run a.run_id
  id ← fresh "activity"
  at ← now
  modify λ w. record w {
    db = record w.db {
      run_activity_events =
          w.run_activity_events ++ activity_row a id run.next_activity_sequence at ∷ [];
    };
  }
  update_run a.run_id (number_next run.next_activity_sequence)
  pure (record { id = id; sequence = run.next_activity_sequence })

-- `activationId && activationId !== providerActivationId` is false
abbrev pub agrees : Option String → String → Bool
agrees none id = true
agrees (some activation_id) id = str_eq activation_id id

-- the id that the provenance resolves to
unfoldable pub provenance_id : Option String → Option String → String → Command String
provenance_id activation_id none run_id = or_throw activation_id (kernel_error invalid_command)
provenance_id activation_id (some attempt_id) run_id = do
  attempt ← require_provider_attempt attempt_id
  check (is_text attempt.run_id run_id) (kernel_error forbidden)
  check (agrees activation_id attempt.activation_id) (kernel_error invalid_command)
  pure attempt.activation_id

-- validateActivityProvenance; the answer is the id of the Activation
unfoldable pub validate_activity_provenance :
    String → Option String → Option String → Principal → Option String → Bool → Command String
validate_activity_provenance run_id activation_id attempt_id principal context allow_finished = do
  id ← provenance_id (given activation_id) (given attempt_id) run_id
  activation ← if allow_finished then require_activation id else require_live_activation id
  check (is_for_run activation run_id) (kernel_error forbidden)
  authorize_activation_actor principal context activation allow_finished
  if allow_finished then pure tt else assert_activation_scope_current activation
  pure id

abbrev pub activity_event :
    String → Run → String → Principal → String → Option String → String → Json → EventInput
activity_event type run id principal activation_id attempt_id correlation payload = record {
  type = type;
  project_id = run.project_id;
  channel_id = run.home_channel_id;
  thread_root_id = run.thread_root_id;
  entity_type = "RunActivityEvent";
  entity_id = id;
  actor_principal_id = principal.id;
  activation_id = some activation_id;
  causation_id = some (causation attempt_id activation_id);
  correlation_id = correlation;
  payload = payload;
}

-- AppendRunActivityCommand
pub record AppendActivity : Type 0 where
  pub run_id : String
  pub activation_id : Option String
  pub provider_attempt_id : Option String
  pub kind : String
  pub payload : Json
  pub retention_class : Retention

unfoldable pub append_run_activity :
    AppendActivity → Principal → Option String → String → Command CommandResult
append_run_activity c principal context correlation = do
  activation_id ←
      validate_activity_provenance c.run_id c.activation_id c.provider_attempt_id principal context
        false
  activity ← insert_activity (record {
    run_id = c.run_id;
    activation_id = activation_id;
    provider_attempt_id = c.provider_attempt_id;
    kind = c.kind;
    payload = c.payload;
    retention_class = c.retention_class;
  })
  run ← require_run c.run_id
  sequence ←
      emit_event
        (activity_event "RunActivityAppended" run activity.id principal activation_id
          c.provider_attempt_id correlation
          (object (
            field "runId" (string c.run_id)
              (field "sequence" (number activity.sequence) (field "kind" (string c.kind) end)))))
        none
  pure (record (bare_result activity.id) { revision = some activity.sequence })

abbrev pub state_word : RunState → String
state_word RunState.active_run = "Active"
state_word RunState.waiting = "Waiting"
state_word RunState.completed = "Completed"
state_word RunState.failed = "Failed"
state_word RunState.cancelled = "Cancelled"

-- The clock is read only where the Run can still change.
unfoldable pub require_late : Activation → Run → Command Unit
require_late activation run = if is_terminal_run_state run.state then pure tt else do
  current ← is_current_run_activation activation run
  check (not current) (kernel_error conflict)

-- recordLateOutput of runs.ts
unfoldable pub record_late_output :
    String
    → Option String
    → Option String
    → Json
    → Principal
    → Option String
    → String
    → Command CommandResult
record_late_output run_id activation_id attempt_id payload principal context correlation = do
  run ← require_run run_id
  provenance ← validate_activity_provenance run_id activation_id attempt_id principal context true
  activation ← require_activation provenance
  require_late activation run
  activity ← insert_activity (record {
    run_id = run_id;
    activation_id = provenance;
    provider_attempt_id = attempt_id;
    kind = "late_output";
    payload = payload;
    retention_class = durable;
  })
  sequence ←
      emit_event
        (activity_event "LateOutputRecorded" run activity.id principal provenance attempt_id
          correlation
          (object (
            field "runId" (string run_id) (
              field "sequence" (number activity.sequence)
                (field "runState" (string (state_word run.state)) end)))))
        none
  pure (record (bare_result activity.id) { revision = some activity.sequence })
