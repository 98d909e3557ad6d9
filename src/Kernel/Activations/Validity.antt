-- ===== src/Kernel/Activations/Validity.antt =====
-- packages/kernel/src/invariants.ts: activationValidityAt and the checks that rest on it.
use torsor.Prelude.{
  ℕ, String, Bool, true, false, not, ◌&&◌, ◌||◌, Option, none, some, str_eq, same_text, is_none,
  leb, ◌==◌, first_row, if◌then◌else◌,
}
use torsor.Kernel.Errors.{Code, kernel_error, not_found, conflict, terminal_run}
use torsor.Kernel.Action.{pure, throw, check, gets, or_throw, ◌>>=◌, ◌>>◌}
use torsor.Kernel.Rows.{
  Attention, DomainFence, Run, Activation, Cause, for_run, for_attention, is_open, is_active_run,
  is_terminal_run_state,
}
use torsor.Kernel.World.{Command, now}

-- ActivationScopeState
pub data Scope : Type 0 where
  run_scope : Run → Scope
  attention_scope : Attention → Option DomainFence → Scope

pub data Reason : Type 0 where
  finished revoked expired wrong_agent run_not_active stale_run_generation : Reason
  attention_not_open attention_lease_stale : Reason

-- ActivationValidity
pub data Validity : Type 0 where
  live : Validity
  dead : Reason → Validity

abbrev pub same_number : Option ℕ → Option ℕ → Bool
same_number none none = true
same_number (some n) (some m) = n == m
same_number _ _ = false

-- attentionDomainFenceMatches
abbrev pub fence_matches : Attention → Option DomainFence → Option String → Bool
fence_matches attention none token = false
fence_matches attention (some fence) token =
    same_text attention.handler_lease_token token
    && str_eq fence.agent_id attention.target_agent_id
    && str_eq fence.project_id attention.project_id
    && str_eq fence.channel_id attention.channel_id
    && str_eq fence.thread_root_id attention.thread_root_id
    && same_text fence.lease_token token
    && same_number fence.lease_expires_at attention.handler_lease_expires_at
    && str_eq fence.attention_id attention.id

-- `expiry === null || expiry <= at`
abbrev pub is_over : Option ℕ → ℕ → Bool
is_over none at = true
is_over (some expiry) at = leb expiry at

abbrev pub run_generation : Activation → Option ℕ
run_generation activation = elim activation.cause [
  | for_run id generation ↦ some generation
  | for_attention id token ↦ none
]

abbrev pub attention_token : Activation → Option String
attention_token activation = elim activation.cause [
  | for_run id generation ↦ none
  | for_attention id token ↦ some token
]

unfoldable pub run_validity : Activation → Run → Validity
run_validity activation run =
    if not (str_eq activation.agent_id run.owner_agent_id)
    then dead wrong_agent
    else if not (is_active_run run.state)
    then dead run_not_active
    else if not (same_number (run_generation activation) (some run.activation_generation))
    then dead stale_run_generation
    else live

unfoldable pub attention_validity : Activation → Attention → Option DomainFence → ℕ → Validity
attention_validity activation attention fence at =
    if not (str_eq activation.agent_id attention.target_agent_id)
    then dead wrong_agent
    else if not (is_open attention.status)
    then dead attention_not_open
    else if not (same_text attention.handler_lease_token (attention_token activation))
        || is_over attention.handler_lease_expires_at at
        || not (fence_matches attention fence attention.handler_lease_token)
    then dead attention_lease_stale
    else live

abbrev pub scope_validity : Activation → Scope → ℕ → Validity
scope_validity activation (run_scope run) at = run_validity activation run
scope_validity activation (attention_scope attention fence) at =
    attention_validity activation attention fence at

-- activationValidityAt
unfoldable pub activation_validity_at : Activation → Scope → ℕ → Validity
activation_validity_at activation scope at =
    if not (is_none activation.finished_at)
    then dead finished
    else if not (is_none activation.revoked_at)
    then dead revoked
    else if leb activation.expires_at at
    then dead expired
    else scope_validity activation scope at

unfoldable pub require_run : String → Command Run
require_run id = do
  found ← gets (λ w. first_row (λ r. str_eq r.id id) w.runs)
  or_throw found (kernel_error not_found)

unfoldable pub require_attention : String → Command Attention
require_attention id = do
  found ← gets (λ w. first_row (λ a. str_eq a.id id) w.attentions)
  or_throw found (kernel_error not_found)

unfoldable pub require_activation : String → Command Activation
require_activation id = do
  found ← gets (λ w. first_row (λ a. str_eq a.id id) w.activations)
  or_throw found (kernel_error not_found)

unfoldable pub require_live_activation : String → Command Activation
require_live_activation id = do
  activation ← require_activation id
  check (is_none activation.finished_at) (kernel_error conflict)
  pure activation

-- loadActivationScopeState
unfoldable pub load_scope_of : Cause → Command Scope
load_scope_of (for_run id generation) = do run ← require_run id; pure (run_scope run)
load_scope_of (for_attention id token) = do
  attention ← require_attention id
  fence ← gets (λ w. first_row (λ f. str_eq f.attention_id attention.id) w.fences)
  pure (attention_scope attention fence)

unfoldable pub load_activation_scope_state : Activation → Command Scope
load_activation_scope_state activation = load_scope_of activation.cause

abbrev pub reason_code : Scope → Reason → Code
reason_code (run_scope run) run_not_active =
    if is_terminal_run_state run.state then terminal_run else conflict
reason_code _ _ = conflict

abbrev pub require_live : Scope → Validity → Command Unit
require_live scope live = pure tt
require_live scope (dead reason) = throw (kernel_error (reason_code scope reason))

unfoldable pub assert_activation_scope_current : Activation → Command Unit
assert_activation_scope_current activation = do
  scope ← load_activation_scope_state activation
  at ← now
  require_live scope (activation_validity_at activation scope at)

abbrev pub is_live : Validity → Bool
is_live live = true
is_live (dead reason) = false

abbrev pub is_for_run : Activation → String → Bool
is_for_run activation run_id = elim activation.cause [
  | for_run id generation ↦ str_eq id run_id
  | for_attention id token ↦ false
]

-- The clock is read only where the Activation is for the Run.
unfoldable pub is_current_run_activation : Activation → Run → Command Bool
is_current_run_activation activation run =
    if is_for_run activation run.id
    then (do at ← now; pure (is_live (activation_validity_at activation (run_scope run) at)))
    else pure false
