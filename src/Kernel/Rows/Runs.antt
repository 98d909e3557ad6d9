-- ===== src/Kernel/Rows/Runs.antt =====
-- packages/kernel/src/schema.ts: agents, Attentions, Runs, their inputs, and Activations.
use torsor.Kernel.Rows.Outbox.{Json}
use torsor.Prelude.{ℕ, String, Bool, true, false, Option, List}

pub record Agent : Type 0 where
  pub id : String
  pub principal_id : String
  pub project_id : String
  pub current_config_revision : ℕ

pub data AttentionStatus : Type 0 where
  open_attention resolved ignored : AttentionStatus

abbrev pub is_open : AttentionStatus → Bool
is_open open_attention = true
is_open _ = false

pub record Attention : Type 0 where
  pub id : String
  pub target_agent_id : String
  pub project_id : String
  pub channel_id : String
  pub thread_root_id : String
  pub message_revision_id : String
  pub status : AttentionStatus
  pub revision : ℕ
  pub handler_lease_holder_principal_id : Option String
  pub handler_lease_token : Option String
  pub handler_lease_expires_at : Option ℕ
  pub resolution_outcome : Option String
  pub resolved_by_principal_id : Option String
  pub resolved_activation_id : Option String
  pub resolved_run_id : Option String
  pub resolved_at : Option ℕ

-- A row of attention_history.
pub record AttentionHistory : Type 0 where
  pub attention_id : String
  pub event_sequence : ℕ
  pub status : AttentionStatus
  pub revision : ℕ
  pub handler_lease_holder_principal_id : Option String
  pub handler_lease_expires_at : Option ℕ
  pub resolution_outcome : Option String
  pub resolved_run_id : Option String
  pub resolved_at : Option ℕ

-- A row of attention_domain_fences.
pub record DomainFence : Type 0 where
  pub agent_id : String
  pub project_id : String
  pub channel_id : String
  pub thread_root_id : String
  pub attention_id : String
  pub lease_token : Option String
  pub lease_expires_at : Option ℕ
  pub unsettled_provider_attempt_count : ℕ

pub data RunState : Type 0 where
  active_run waiting completed failed cancelled : RunState

-- isTerminalRunState of packages/kernel/src/values.ts
abbrev pub is_terminal_run_state : RunState → Bool
is_terminal_run_state active_run = false
is_terminal_run_state waiting = false
is_terminal_run_state _ = true

abbrev pub is_active_run : RunState → Bool
is_active_run active_run = true
is_active_run _ = false

pub record Run : Type 0 where
  pub id : String
  pub project_id : String
  pub home_channel_id : String
  pub thread_root_id : String
  pub owner_agent_id : String
  pub agent_config_revision : ℕ
  pub causal_root_id : String
  pub parent_attention_id : String
  pub parent_run_id : Option String
  pub delegation_depth : ℕ
  pub state : RunState
  pub revision : ℕ
  pub activation_generation : ℕ
  pub next_input_sequence : ℕ
  pub next_activity_sequence : ℕ
  pub created_at : ℕ
  pub updated_at : ℕ
  pub terminal_reason : Option String

pub data Disposition : Type 0 where
  pending incorporated declined superseded withdrawn abandoned : Disposition

abbrev pub is_pending : Disposition → Bool
is_pending pending = true
is_pending _ = false

pub record RunInput : Type 0 where
  pub id : String
  pub run_id : String
  pub message_revision_id : String
  pub run_input_sequence : ℕ
  pub assigned_by_principal_id : String
  pub assigned_by_activation_id : Option String
  pub source_attention_id : Option String
  pub created_at : ℕ
  pub disposition : Disposition
  pub disposition_revision : ℕ
  pub disposition_reason : Option String
  pub superseded_by_run_input_id : Option String

-- What an Activation was started for: the columns cause, run_id with run_activation_generation,
-- and attention_id with attention_lease_token, joined as their CHECK joins them.
pub data Cause : Type 0 where
  for_run : String → ℕ → Cause
  for_attention : String → String → Cause

pub data ActivationOutcome : Type 0 where
  outcome_completed outcome_failed outcome_cancelled outcome_expired : ActivationOutcome

-- A row of activation_attempts.
pub record Activation : Type 0 where
  pub id : String
  pub agent_id : String
  pub cause : Cause
  pub config_revision : ℕ
  pub started_at : ℕ
  pub expires_at : ℕ
  pub revoked_at : Option ℕ
  pub revocation_reason : Option String
  pub finished_at : Option ℕ
  pub outcome : Option ActivationOutcome
  pub detail : Option String

-- A row of activation_run_inputs.
pub record ActivationRunInput : Type 0 where
  pub activation_id : String
  pub run_input_id : String
  pub run_input_sequence : ℕ

pub data AttemptStatus : Type 0 where
  started acknowledged attempt_completed attempt_failed unknown : AttemptStatus

pub record ProviderAttempt : Type 0 where
  pub id : String
  pub activation_id : String
  pub run_id : Option String
  pub adapter : String
  pub adapter_version : String
  pub capability_snapshot : Json
  pub run_input_ids : List String
  pub request_idempotency_key : String
  pub status : AttemptStatus
  pub detail : Option String
  pub started_at : ℕ
  pub finished_at : Option ℕ

pub data Retention : Type 0 where
  durable transient : Retention

-- A row of run_activity_events.
pub record RunActivity : Type 0 where
  pub id : String
  pub run_id : String
  pub activation_id : String
  pub provider_attempt_id : Option String
  pub sequence : ℕ
  pub kind : String
  pub payload : Json
  pub retention_class : Retention
  pub created_at : ℕ

-- A row of threads.
pub record Thread : Type 0 where
  pub root_message_id : String
  pub project_id : String
  pub channel_id : String
  pub cursor : ℕ

-- The row of causal_limits.
pub record CausalLimits : Type 0 where
  pub max_depth : ℕ
  pub max_non_terminal_runs_per_root : ℕ

-- A row of public_events; its sequence number is its place in the table.
pub record PublicEvent : Type 0 where
  pub event_id : String
  pub type : String
  pub project_id : String
  pub channel_id : String
  pub thread_root_id : String
  pub thread_cursor : Option ℕ
  pub entity_type : String
  pub entity_id : String
  pub actor_principal_id : String
  pub activation_id : Option String
  pub causation_id : Option String
  pub correlation_id : String
  pub payload : Json
  pub occurred_at : ℕ
