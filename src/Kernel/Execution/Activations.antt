-- ===== src/Kernel/Execution/Activations.antt =====
-- packages/kernel/src/execution.ts: an Activation starts, is asked for again, and finishes.
pub mod Beginning
unfoldable pub use Beginning.*
use torsor.Prelude.{
  ℕ, ◌+◌, String, Bool, true, false, ◌&&◌, Option, none, some, List, [], ◌∷◌, ◌++◌, str_eq, is_none,
  ltb, first_row, given, where_rows, if◌then◌else◌,
}
use torsor.Kernel.Errors.{kernel_error, invalid_command, conflict, internal}
use torsor.Kernel.Action.{pure, check, gets, modify, or_throw, ◌>>=◌, ◌>>◌}
use torsor.Kernel.Rows.{
  Principal, is_runtime, is_agent, Run, RunState, active_run, waiting, Attention, RunInput,
  Activation, ActivationRunInput, ActivationOutcome, outcome_completed, outcome_failed,
  outcome_cancelled, outcome_expired, Cause, for_run, for_attention, is_open, Json, string, number,
  null, object, field, end,
}
use torsor.Kernel.World.{Command, now, fresh}
use torsor.Kernel.Values.{bounded_duration}
use torsor.Kernel.Results.{CommandResult, bare_result}
use torsor.Kernel.Guards.{require_kind}
use torsor.Kernel.Outbox.Rows.{enqueue_outbox}
use torsor.Kernel.Outbox.Delivery.{
  OutboxAuthority, DeliveryAuthority, require_outbox_activation_authority,
}
use torsor.Kernel.Activations.Validity.{
  require_attention, require_activation, require_live_activation, is_for_run,
  assert_activation_scope_current,
}
use torsor.Kernel.Activations.Actors.{require_mutable_run, authorize_activation_actor}
use torsor.Kernel.Runs.Events.{emit_event, emit_thread_event, revoke_run_activations}
use torsor.Kernel.Runs.Commands.{update_run}
use torsor.Kernel.Attentions.Rows.{require_agent, change_activations}
use torsor.Kernel.Attentions.Domains.{assert_attention_lease}
use torsor.Kernel.Attentions.Decisions.{is_activation}
use torsor.Kernel.Attentions.Resolutions.{json_or_null}
use torsor.Kernel.Messages.Scope.{Place, place_of_run, place_of_attention, activation_scope}

-- the part of resolveCachedActivation for a Run
unfoldable pub resolve_activation_of :
    String → StartActivation → CommandResult → Principal → Command CommandResult
resolve_activation_of run_id c result principal = do
  activation ← require_live_activation result.entity_id
  assert_activation_scope_current activation
  check (is_for_run activation run_id) (kernel_error internal)
  authority ← require_outbox_activation_authority c.outbox principal run_id
  pure (record result {
    lease_expires_at = some authority.lease_expires_at;
    authority_observed_at = some authority.observed_at;
  })

unfoldable pub resolve_cached_activation :
    StartActivation → CommandResult → Principal → Command CommandResult
resolve_cached_activation c result principal = elim (given c.run_id) [
  | none ↦ pure result
  | some run_id ↦ resolve_activation_of run_id c result principal
]

abbrev pub finish : ℕ → ActivationOutcome → Option String → Activation → Activation
finish at outcome detail a = record a {
  finished_at = some at;
  outcome = some outcome;
  detail = detail;
}

abbrev pub outcome_word : ActivationOutcome → String
outcome_word outcome_completed = "Completed"
outcome_word outcome_failed = "Failed"
outcome_word outcome_cancelled = "Cancelled"
outcome_word outcome_expired = "Expired"

unfoldable pub finish_activation :
    String
    → ActivationOutcome
    → Option String
    → Principal
    → Option String
    → String
    → Command CommandResult
finish_activation id outcome detail principal context correlation = do
  activation ← require_activation id
  authorize_activation_actor principal context activation false
  if is_agent principal.kind then assert_activation_scope_current activation else pure tt
  check (is_none activation.finished_at) (kernel_error conflict)
  at ← now
  changed ← change_activations (is_activation id) (finish at outcome detail)
  place ← activation_scope activation
  sequence ←
      emit_event
        (record {
          type = "ActivationFinished";
          project_id = place.project_id;
          channel_id = place.channel_id;
          thread_root_id = place.thread_root_id;
          entity_type = "ActivationAttempt";
          entity_id = id;
          actor_principal_id = principal.id;
          activation_id = some id;
          causation_id = some (cause_id activation.cause);
          correlation_id = correlation;
          payload = object (field "outcome" (string (outcome_word outcome)) end);
        })
        none
  pure (bare_result id)
