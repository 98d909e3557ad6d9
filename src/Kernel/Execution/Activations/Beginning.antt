-- ===== src/Kernel/Execution/Activations/Beginning.antt =====
-- packages/kernel/src/execution.ts: an Activation starts.
use torsor.Prelude.{
  ℕ, ◌+◌, String, Bool, true, false, ◌&&◌, Option, none, some, List, [], ◌∷◌, ◌++◌, str_eq, ltb,
  first_row, given, where_rows, if◌then◌else◌,
}
use torsor.Kernel.Errors.{kernel_error, invalid_command, conflict, internal}
use torsor.Kernel.Action.{pure, check, gets, modify, or_throw, ◌>>=◌, ◌>>◌}
use torsor.Kernel.Rows.{
  Principal, is_runtime, Run, RunState, active_run, waiting, Attention, RunInput, Activation,
  ActivationRunInput, Cause, for_run, for_attention, is_open, Json, string, number, null, object,
  field, end,
}
use torsor.Kernel.World.{Command, now, fresh}
use torsor.Kernel.Values.{bounded_duration}
use torsor.Kernel.Results.{CommandResult, bare_result}
use torsor.Kernel.Guards.{require_kind}
use torsor.Kernel.Outbox.Rows.{enqueue_outbox}
use torsor.Kernel.Outbox.Delivery.{
  OutboxAuthority, DeliveryAuthority, require_outbox_activation_authority,
}
use torsor.Kernel.Activations.Validity.{require_attention}
use torsor.Kernel.Activations.Actors.{require_mutable_run}
use torsor.Kernel.Runs.Events.{emit_event, emit_thread_event, revoke_run_activations}
use torsor.Kernel.Runs.Commands.{update_run}
use torsor.Kernel.Attentions.Rows.{require_agent}
use torsor.Kernel.Attentions.Domains.{assert_attention_lease}
use torsor.Kernel.Attentions.Resolutions.{json_or_null}
use torsor.Kernel.Messages.Scope.{Place, place_of_run, place_of_attention}

-- StartActivationCommand; the duration is the command's, or else the kernel's
pub record StartActivation : Type 0 where
  pub run_id : Option String
  pub attention_id : Option String
  pub handler_lease_token : Option String
  pub expected_run_revision : Option ℕ
  pub outbox : OutboxAuthority
  pub duration_ms : ℕ

pub data Target : Type 0 where
  run_target attention_target : String → Target

-- exactly one of the two ids
abbrev pub target_of : Option String → Option String → Option Target
target_of (some run_id) none = some (run_target run_id)
target_of none (some attention_id) = some (attention_target attention_id)
target_of _ _ = none

-- what the two branches of startActivation settle about the Activation
pub record Start : Type 0 where
  pub agent_id : String
  pub cause : Cause
  pub config_revision : ℕ
  pub place : Place
  pub expires_at : ℕ
  pub authority : Option DeliveryAuthority
  pub run_revision : Option ℕ

abbrev pub new_activation : String → ℕ → Start → Activation
new_activation id at start = record {
  id = id;
  agent_id = start.agent_id;
  cause = start.cause;
  config_revision = start.config_revision;
  started_at = at;
  expires_at = start.expires_at;
  revoked_at = none;
  revocation_reason = none;
  finished_at = none;
  outcome = none;
  detail = none;
}

abbrev pub is_input_of : Cause → RunInput → Bool
is_input_of (for_run id generation) input = str_eq input.run_id id
is_input_of (for_attention id token) input = false

abbrev pub supply : String → List RunInput → List ActivationRunInput
supply id [] = []
supply id (input ∷ inputs) =
    record {
      activation_id = id;
      run_input_id = input.id;
      run_input_sequence = input.run_input_sequence;
    }
    ∷ supply id inputs

abbrev pub run_id_of : Cause → Option String
run_id_of (for_run id generation) = some id
run_id_of (for_attention id token) = none

abbrev pub attention_id_of : Cause → Option String
attention_id_of (for_run id generation) = none
attention_id_of (for_attention id token) = some id

abbrev pub cause_id : Cause → String
cause_id (for_run id generation) = id
cause_id (for_attention id token) = id

abbrev pub generation_of : Cause → Json
generation_of (for_run id generation) = number generation
generation_of (for_attention id token) = null

abbrev pub expiry_of : Option DeliveryAuthority → Option ℕ
expiry_of none = none
expiry_of (some authority) = some authority.lease_expires_at

abbrev pub observation_of : Option DeliveryAuthority → Option ℕ
observation_of none = none
observation_of (some authority) = some authority.observed_at

-- The Activation is stored with the inputs of its Run, whose rows stand in the order of their
-- sequence numbers.
unfoldable pub begin_activation : Start → Principal → ℕ → String → Command CommandResult
begin_activation start principal at correlation = do
  id ← fresh "activation"
  modify λ w. record w {
    db = record w.db { activations = w.activations ++ new_activation id at start ∷ [] };
  }
  modify λ w. record w {
    db = record w.db {
      activation_run_inputs =
          w.activation_run_inputs ++ supply id (where_rows (is_input_of start.cause) w.run_inputs);
    };
  }
  sequence ←
      emit_event
        (record {
          type = "ActivationStarted";
          project_id = start.place.project_id;
          channel_id = start.place.channel_id;
          thread_root_id = start.place.thread_root_id;
          entity_type = "ActivationAttempt";
          entity_id = id;
          actor_principal_id = principal.id;
          activation_id = some id;
          causation_id = some (cause_id start.cause);
          correlation_id = correlation;
          payload = object (
              field "runId" (json_or_null (run_id_of start.cause)) (
                field "attentionId" (json_or_null (attention_id_of start.cause)) (
                  field "agentId" (string start.agent_id) (
                    field "configRevision" (number start.config_revision) (
                      field "runActivationGeneration" (generation_of start.cause)
                        (field "expiresAt" (number start.expires_at) end))))));
        })
        none
  pure (record (bare_result id) {
    lease_expires_at = expiry_of start.authority;
    authority_observed_at = observation_of start.authority;
    revision = start.run_revision;
  })

abbrev pub is_waiting : RunState → Bool
is_waiting waiting = true
is_waiting _ = false

abbrev pub resume : ℕ → ℕ → ℕ → Run → Run
resume revision generation at run = record run {
  state = active_run;
  revision = revision;
  activation_generation = generation;
  updated_at = at;
}

abbrev pub regenerate : ℕ → ℕ → Run → Run
regenerate generation at run = record run { activation_generation = generation; updated_at = at }

unfoldable pub resume_run : Run → ℕ → Principal → String → Command ℕ
resume_run run at principal correlation = do
  update_run run.id (resume (run.revision + 1) (run.activation_generation + 1) at)
  cursor ← emit_thread_event (record {
    type = "RunActivated";
    project_id = run.project_id;
    channel_id = run.home_channel_id;
    thread_root_id = run.thread_root_id;
    entity_type = "Run";
    entity_id = run.id;
    actor_principal_id = principal.id;
    activation_id = none;
    causation_id = some run.id;
    correlation_id = correlation;
    payload = object (field "revision" (number (run.revision + 1)) end);
  })
  enqueue_outbox "run.activated" "Run" run.id
      (object (field "revision" (number (run.revision + 1)) end))
  pure (run.revision + 1)

unfoldable pub regenerate_run : Run → ℕ → Command ℕ
regenerate_run run at = do
  update_run run.id (regenerate (run.activation_generation + 1) at)
  pure run.revision

-- The Run gets its next generation, and is Active; the answer is its revision.
unfoldable pub advance_run : Run → ℕ → Principal → String → Command ℕ
advance_run run at principal correlation =
    if is_waiting run.state then resume_run run at principal correlation else regenerate_run run at

unfoldable pub start_for_run :
    StartActivation → String → Principal → ℕ → ℕ → String → Command CommandResult
start_for_run c run_id principal at expires_at correlation = do
  expected ← or_throw c.expected_run_revision (kernel_error invalid_command)
  run ← require_mutable_run run_id (some expected)
  authority ← require_outbox_activation_authority c.outbox principal run_id
  agent ← require_agent run.owner_agent_id
  revoke_run_activations run_id "superseded_activation" at
  revision ← advance_run run at principal correlation
  begin_activation
      (record {
        agent_id = agent.id;
        cause = for_run run_id (run.activation_generation + 1);
        config_revision = run.agent_config_revision;
        place = place_of_run run;
        expires_at = expires_at;
        authority = some authority;
        run_revision = some revision;
      })
      principal at correlation

abbrev pub earlier : Option ℕ → ℕ → ℕ
earlier none expires_at = expires_at
earlier (some lease) expires_at = if ltb lease expires_at then lease else expires_at

abbrev pub is_started_for : String → String → Activation → Bool
is_started_for attention_id token a = elim a.cause [
  | for_run id generation ↦ false
  | for_attention id held ↦ str_eq id attention_id && str_eq held token
]

-- the Activation that has been started with this lease, or a new one
unfoldable pub begin_or_repeat :
    Option Activation → Attention → String → Principal → ℕ → ℕ → String → Command CommandResult
begin_or_repeat (some existing) attention token principal at expires_at correlation =
    pure (bare_result existing.id)
begin_or_repeat none attention token principal at expires_at correlation = do
  agent ← require_agent attention.target_agent_id
  begin_activation
      (record {
        agent_id = agent.id;
        cause = for_attention attention.id token;
        config_revision = agent.current_config_revision;
        place = place_of_attention attention;
        expires_at = earlier attention.handler_lease_expires_at expires_at;
        authority = none;
        run_revision = none;
      })
      principal at correlation

unfoldable pub start_for_attention :
    StartActivation → String → Principal → ℕ → ℕ → String → Command CommandResult
start_for_attention c attention_id principal at expires_at correlation = do
  attention ← require_attention attention_id
  check (is_open attention.status) (kernel_error conflict)
  assert_attention_lease attention c.handler_lease_token
  token ← or_throw c.handler_lease_token (kernel_error internal)
  existing ← gets (λ w. first_row (is_started_for attention.id token) w.activations)
  begin_or_repeat existing attention token principal at expires_at correlation

unfoldable pub start_for :
    Target → StartActivation → Principal → ℕ → ℕ → String → Command CommandResult
start_for (run_target id) c principal at expires_at correlation =
    start_for_run c id principal at expires_at correlation
start_for (attention_target id) c principal at expires_at correlation =
    start_for_attention c id principal at expires_at correlation

unfoldable pub start_activation : StartActivation → Principal → String → Command CommandResult
start_activation c principal correlation = do
  require_kind principal is_runtime
  target ←
      or_throw (target_of (given c.run_id) (given c.attention_id)) (kernel_error invalid_command)
  duration ← bounded_duration c.duration_ms
  at ← now
  start_for target c principal at (at + duration) correlation
