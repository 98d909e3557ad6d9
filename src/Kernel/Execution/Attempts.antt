-- ===== src/Kernel/Execution/Attempts.antt =====
-- packages/kernel/src/execution.ts: the attempts of an Activation at its provider.
mod Beginning
unfoldable pub use Beginning.*
use torsor.Prelude.{
  ℕ, String, Bool, true, false, not, ◌&&◌, Option, none, some, List, [], ◌∷◌, ◌++◌, str_eq, is_text,
  is_none, first_row, update_rows, any_row, if◌then◌else◌,
}
use torsor.Kernel.Errors.{kernel_error, not_found, forbidden, conflict, invalid_command, internal}
use torsor.Kernel.Action.{pure, check, gets, modify, or_throw, for_each, ◌>>=◌, ◌>>◌}
use torsor.Kernel.Rows.{
  Principal, is_agent, is_pending, Activation, ProviderAttempt, AttemptStatus, started,
  acknowledged, attempt_completed, attempt_failed, unknown, Json, string, array, object, field, end,
}
use torsor.Kernel.World.{Command, now, fresh}
use torsor.Kernel.Values.{require_non_empty, unique}
use torsor.Kernel.Results.{CommandResult, bare_result}
use torsor.Kernel.Outbox.Delivery.{OutboxAuthority, or_empty, require_outbox_provider_authority}
use torsor.Kernel.Activations.Validity.{
  require_activation, require_live_activation, assert_activation_scope_current,
}
use torsor.Kernel.Activations.Actors.{authorize_activation_actor}
use torsor.Kernel.Physical.Authority.{is_executing}
use torsor.Kernel.Runs.Events.{EventInput, emit_event}
use torsor.Kernel.Runs.Completion.{is_supplied}
use torsor.Kernel.Attentions.Commands.{json_ids}
use torsor.Kernel.Attentions.Resolutions.{json_or_null}
use torsor.Kernel.Messages.Scope.{Place, activation_scope}
use torsor.Kernel.Execution.Activations.{run_id_of}

abbrev pub status_word : AttemptStatus → String
status_word started = "Started"
status_word acknowledged = "Acknowledged"
status_word attempt_completed = "Completed"
status_word attempt_failed = "Failed"
status_word unknown = "Unknown"

abbrev pub is_acknowledged : AttemptStatus → Bool
is_acknowledged acknowledged = true
is_acknowledged _ = false

abbrev pub is_unknown : AttemptStatus → Bool
is_unknown unknown = true
is_unknown _ = false

abbrev pub settle_attempt :
    AttemptStatus → Option String → Option ℕ → ProviderAttempt → ProviderAttempt
settle_attempt status detail finished_at attempt = record attempt {
  status = status;
  detail = detail;
  finished_at = finished_at;
}

-- `status === "Acknowledged" ? null : now`; the clock is read only for the latter
unfoldable pub finishing_time : AttemptStatus → Command (Option ℕ)
finishing_time status = if is_acknowledged status then pure none else do at ← now; pure (some at)

-- the check of an Agent that settles an attempt
unfoldable pub require_settling_agent : Principal → Activation → Command Unit
require_settling_agent principal activation =
    if is_agent principal.kind
    then (do
      check (is_none activation.finished_at) (kernel_error forbidden)
      assert_activation_scope_current activation)
    else pure tt

unfoldable pub update_attempt : String → (ProviderAttempt → ProviderAttempt) → Command Unit
update_attempt id change = modify λ w. record w {
  db = record w.db { provider_attempts = update_rows (is_attempt id) change w.provider_attempts };
}

-- setProviderAttemptStatus. The triggers that count the attempts of an Attention are left out.
unfoldable pub set_provider_attempt_status :
    String
    → AttemptStatus
    → Option String
    → Principal
    → Option String
    → String
    → Command CommandResult
set_provider_attempt_status id status detail principal context correlation = do
  attempt ← require_provider_attempt id
  activation ← require_activation attempt.activation_id
  require_settling_agent principal activation
  authorize_activation_actor principal context activation true
  check (is_executing attempt.status) (kernel_error conflict)
  check (not (is_acknowledged attempt.status && is_acknowledged status)) (kernel_error conflict)
  if is_unknown status then require_non_empty (or_empty detail) else pure tt
  finished_at ← finishing_time status
  update_attempt id (settle_attempt status detail finished_at)
  place ← activation_scope activation
  sequence ←
      emit_event
        (attempt_event
          (if is_acknowledged status
            then "ProviderAttemptAcknowledged"
            else "ProviderAttemptFinished")
          place id principal attempt.activation_id correlation
          (object (
            field "status" (string (status_word status))
              (field "detail" (json_or_null detail) end))))
        none
  pure (bare_result id)

-- the statuses that finishProviderAttempt takes
abbrev pub may_finish : AttemptStatus → Bool
may_finish started = false
may_finish attempt_failed = false
may_finish _ = true

unfoldable pub finish_provider_attempt :
    String
    → AttemptStatus
    → Option String
    → Principal
    → Option String
    → String
    → Command CommandResult
finish_provider_attempt id status detail principal context correlation = do
  check (may_finish status) (kernel_error invalid_command)
  set_provider_attempt_status id status detail principal context correlation

unfoldable pub fail_provider_attempt :
    String → String → Principal → Option String → String → Command CommandResult
fail_provider_attempt id error principal context correlation =
    set_provider_attempt_status id attempt_failed (some error) principal context correlation
