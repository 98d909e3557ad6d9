-- ===== src/Kernel/Attentions/Decisions.antt =====
-- packages/kernel/src/attentions.ts: an Agent's decision on its Attention, and to ignore it.
use torsor.Prelude.{ℕ, ◌+◌, String, Bool, ◌&&◌, Option, none, some, str_eq, trim}
use torsor.Kernel.Errors.{kernel_error, conflict, forbidden, unauthorized, stale_revision}
use torsor.Kernel.Action.{pure, check, or_throw, ◌>>=◌, ◌>>◌}
use torsor.Kernel.Rows.{
  Principal, is_agent, Agent, Attention, AttentionStatus, ignored, Activation, outcome_completed,
  is_open, string, number, object, field, end,
}
use torsor.Kernel.World.{Command, now}
use torsor.Kernel.Values.{require_non_empty}
use torsor.Kernel.Results.{CommandResult, bare_result}
use torsor.Kernel.Guards.{require_kind}
use torsor.Kernel.Activations.Validity.{
  require_attention, require_live_activation, assert_activation_scope_current,
}
use torsor.Kernel.Activations.Actors.{require_agent_for_principal, named_activation, is_expected}
use torsor.Kernel.Runs.Events.{emit_event}
use torsor.Kernel.Attentions.Rows.{
  update_attention, record_attention_history, is_for_attention, change_activations,
}
use torsor.Kernel.Attentions.Domains.{
  assert_attention_lease, release_attention_domain_lease, clear_handler_lease,
}
use torsor.Kernel.Attentions.Commands.{attention_event}

-- AttentionDecisionContext
pub record Decider : Type 0 where
  pub agent : Agent
  pub attention : Attention
  pub activation : Activation

unfoldable pub require_attention_decision_context :
    String → ℕ → String → Principal → Option String → Command Decider
require_attention_decision_context id expected_revision token principal context = do
  require_kind principal is_agent
  agent ← require_agent_for_principal principal.id
  attention ← require_attention id
  check (str_eq agent.id attention.target_agent_id) (kernel_error forbidden)
  check (is_open attention.status) (kernel_error conflict)
  check (is_expected (some expected_revision) attention.revision) (kernel_error stale_revision)
  assert_attention_lease attention (some token)
  activation_id ← or_throw (named_activation context) (kernel_error unauthorized)
  activation ← require_live_activation activation_id
  check (is_for_attention activation id && str_eq activation.agent_id agent.id)
      (kernel_error forbidden)
  assert_activation_scope_current activation
  pure (record { agent = agent; attention = attention; activation = activation })

abbrev pub is_activation : String → Activation → Bool
is_activation id a = str_eq a.id id

abbrev pub finish_for : ℕ → String → Activation → Activation
finish_for at reason a = record a {
  revoked_at = some at;
  revocation_reason = some reason;
  finished_at = some at;
  outcome = some outcome_completed;
  detail = some reason;
}

unfoldable pub finish_attention_activation : String → ℕ → String → Command Unit
finish_attention_activation id at reason = do
  change_activations (is_activation id) (finish_for at reason)
  pure tt

abbrev pub resolve_attention :
    AttentionStatus → String → String → String → Option String → ℕ → ℕ → Attention → Attention
resolve_attention status outcome principal_id activation_id run_id revision at attention =
    record (clear_handler_lease attention) {
      status = status;
      revision = revision;
      resolution_outcome = some outcome;
      resolved_by_principal_id = some principal_id;
      resolved_activation_id = some activation_id;
      resolved_run_id = run_id;
      resolved_at = some at;
    }

-- The three statements with which each decision closes its Attention.
unfoldable pub close_attention :
    Decider → AttentionStatus → String → Option String → Principal → ℕ → Command Unit
close_attention decider status outcome run_id principal at = do
  update_attention decider.attention.id (
      resolve_attention status outcome principal.id decider.activation.id run_id
        (decider.attention.revision + 1) at)
  release_attention_domain_lease decider.attention.id

unfoldable pub ignore_attention :
    String → ℕ → String → String → Principal → Option String → String → Command CommandResult
ignore_attention id expected_revision token reason principal context correlation = do
  decider ← require_attention_decision_context id expected_revision token principal context
  require_non_empty reason
  at ← now
  finish_attention_activation decider.activation.id at "attention_ignored"
  close_attention decider ignored "Ignored" none principal at
  sequence ←
      emit_event
        (attention_event "AttentionIgnored" decider.attention principal (some decider.activation.id)
          decider.attention.message_revision_id correlation
          (object (
            field "outcome" (string "Ignored") (
              field "reason" (string (trim reason))
                (field "revision" (number (decider.attention.revision + 1)) end)))))
        none
  record_attention_history id sequence
  pure (record (bare_result id) { revision = some (decider.attention.revision + 1) })
