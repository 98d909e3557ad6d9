-- ===== src/Kernel/Execution/Attempts/Beginning.antt =====
-- packages/kernel/src/execution.ts: an attempt at a provider starts, or is asked for again.
use torsor.Prelude.{
  ℕ, String, Bool, false, not, ◌&&◌, Option, none, some, List, [], ◌∷◌, ◌++◌, str_eq, is_text,
  is_none, first_row, any_row,
}
use torsor.Kernel.Errors.{kernel_error, not_found, forbidden, conflict, invalid_command, internal}
use torsor.Kernel.Action.{pure, check, gets, modify, or_throw, for_each, ◌>>=◌, ◌>>◌}
use torsor.Kernel.Rows.{
  Principal, is_pending, ProviderAttempt, started, Json, string, array, object, field, end,
}
use torsor.Kernel.World.{Command, now, fresh}
use torsor.Kernel.Values.{unique}
use torsor.Kernel.Results.{CommandResult, bare_result}
use torsor.Kernel.Outbox.Delivery.{OutboxAuthority, require_outbox_provider_authority}
use torsor.Kernel.Activations.Validity.{
  require_activation, require_live_activation, assert_activation_scope_current,
}
use torsor.Kernel.Activations.Actors.{authorize_activation_actor}
use torsor.Kernel.Runs.Events.{EventInput, emit_event}
use torsor.Kernel.Runs.Completion.{is_supplied}
use torsor.Kernel.Attentions.Commands.{json_ids}
use torsor.Kernel.Messages.Scope.{Place, activation_scope}
use torsor.Kernel.Execution.Activations.{run_id_of}

-- StartProviderAttemptCommand
pub record StartAttempt : Type 0 where
  pub activation_id : String
  pub outbox : OutboxAuthority
  pub adapter : String
  pub adapter_version : String
  pub capability_snapshot : Json
  pub run_input_ids : List String
  pub request_idempotency_key : String

-- until when the attempt is authorized, and when that was found
pub record AttemptAuthority : Type 0 where
  pub lease_expires_at : ℕ
  pub observed_at : ℕ

-- providerAttemptAuthority
unfoldable pub provider_attempt_authority :
    StartAttempt → Principal → Option String → List String → Command AttemptAuthority
provider_attempt_authority c principal (some run_id) run_input_ids = do
  authority ← require_outbox_provider_authority c.outbox principal run_id run_input_ids
  pure (record {
    lease_expires_at = authority.lease_expires_at;
    observed_at = authority.observed_at;
  })
provider_attempt_authority c principal none run_input_ids = do
  check (is_none c.outbox.outbox_event_id && is_none c.outbox.outbox_lease_token)
      (kernel_error invalid_command)
  observed ← now
  activation ← require_activation c.activation_id
  pure (record { lease_expires_at = activation.expires_at; observed_at = observed })

-- the body of the loop over the inputs
unfoldable pub require_provider_input : String → Option String → String → Command Unit
require_provider_input activation_id run_id input_id = do
  found ← gets (λ w. first_row (λ i. str_eq i.id input_id) w.run_inputs)
  input ← or_throw found (kernel_error not_found)
  check (is_text run_id input.run_id) (kernel_error forbidden)
  check (is_pending input.disposition) (kernel_error conflict)
  supplied ← gets (λ w. any_row (is_supplied activation_id input_id) w.activation_run_inputs)
  check supplied (kernel_error forbidden)

abbrev pub new_attempt : StartAttempt → String → Option String → List String → ℕ → ProviderAttempt
new_attempt c id run_id run_input_ids at = record {
  id = id;
  activation_id = c.activation_id;
  run_id = run_id;
  adapter = c.adapter;
  adapter_version = c.adapter_version;
  capability_snapshot = c.capability_snapshot;
  run_input_ids = run_input_ids;
  request_idempotency_key = c.request_idempotency_key;
  status = started;
  detail = none;
  started_at = at;
  finished_at = none;
}

abbrev pub is_attempt : String → ProviderAttempt → Bool
is_attempt id attempt = str_eq attempt.id id

-- the UNIQUE columns of the table
abbrev pub has_key_of : ProviderAttempt → ProviderAttempt → Bool
has_key_of attempt other =
    str_eq other.activation_id attempt.activation_id
    && str_eq other.request_idempotency_key attempt.request_idempotency_key

unfoldable pub insert_attempt : ProviderAttempt → Command Unit
insert_attempt attempt = do
  known ← gets (λ w. any_row (is_attempt attempt.id) w.provider_attempts)
  check (not known) (kernel_error conflict)
  repeated ← gets (λ w. any_row (has_key_of attempt) w.provider_attempts)
  check (not repeated) (kernel_error conflict)
  modify
      λ w. record w { db = record w.db { provider_attempts = w.provider_attempts ++ attempt ∷ [] } }

abbrev pub attempt_event : String → Place → String → Principal → String → String → Json → EventInput
attempt_event type place id principal activation_id correlation payload = record {
  type = type;
  project_id = place.project_id;
  channel_id = place.channel_id;
  thread_root_id = place.thread_root_id;
  entity_type = "ProviderAttempt";
  entity_id = id;
  actor_principal_id = principal.id;
  activation_id = some activation_id;
  causation_id = some activation_id;
  correlation_id = correlation;
  payload = payload;
}

unfoldable pub start_provider_attempt :
    StartAttempt → Principal → Option String → String → Command CommandResult
start_provider_attempt c principal context correlation = do
  activation ← require_live_activation c.activation_id
  authorize_activation_actor principal context activation false
  assert_activation_scope_current activation
  authority ←
      provider_attempt_authority c principal (run_id_of activation.cause) (unique c.run_input_ids)
  for_each (require_provider_input c.activation_id (run_id_of activation.cause))
      (unique c.run_input_ids)
  id ← fresh "provider"
  at ← now
  insert_attempt (new_attempt c id (run_id_of activation.cause) (unique c.run_input_ids) at)
  place ← activation_scope activation
  sequence ←
      emit_event
        (attempt_event "ProviderAttemptStarted" place id principal c.activation_id correlation (
          object (
            field "adapter" (string c.adapter) (
              field "adapterVersion" (string c.adapter_version)
                (field "runInputIds" (array (json_ids (unique c.run_input_ids))) end)))))
        none
  pure (record (bare_result id) {
    lease_expires_at = some authority.lease_expires_at;
    authority_observed_at = some authority.observed_at;
  })

unfoldable pub require_provider_attempt : String → Command ProviderAttempt
require_provider_attempt id = do
  found ← gets (λ w. first_row (is_attempt id) w.provider_attempts)
  or_throw found (kernel_error not_found)

unfoldable pub resolve_cached_provider_attempt :
    StartAttempt → CommandResult → Principal → Option String → Command CommandResult
resolve_cached_provider_attempt c result principal context = do
  activation ← require_live_activation c.activation_id
  authorize_activation_actor principal context activation false
  assert_activation_scope_current activation
  authority ←
      provider_attempt_authority c principal (run_id_of activation.cause) (unique c.run_input_ids)
  attempt ← require_provider_attempt result.entity_id
  check
      (str_eq attempt.activation_id c.activation_id
        && str_eq attempt.request_idempotency_key c.request_idempotency_key)
      (kernel_error internal)
  pure (record result {
    lease_expires_at = some authority.lease_expires_at;
    authority_observed_at = some authority.observed_at;
  })
