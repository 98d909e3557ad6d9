-- ===== src/Kernel/Activations/Actors.antt =====
-- packages/kernel/src/invariants.ts: who may act for an Activation, and for a Run.
use torsor.Prelude.{
  ℕ, String, Bool, true, not, ◌&&◌, ◌||◌, Option, none, some, str_eq, is_none, ◌==◌, first_row,
  if◌then◌else◌,
}
use torsor.Kernel.Errors.{
  kernel_error, conflict, forbidden, unauthorized, terminal_run, stale_revision,
}
use torsor.Kernel.Action.{pure, check, gets, or_throw, ◌>>=◌, ◌>>◌}
use torsor.Kernel.Rows.{
  Principal, is_runtime, is_agent, Agent, Run, Activation, is_terminal_run_state,
}
use torsor.Kernel.World.{Command}
use torsor.Kernel.Guards.{require_kind}
use torsor.Kernel.Activations.Validity.{
  require_run, require_live_activation, is_for_run, assert_activation_scope_current,
}

unfoldable pub require_principal : String → Command Principal
require_principal id = do
  found ← gets (λ w. first_row (λ p. str_eq p.id id) w.principals)
  or_throw found (kernel_error unauthorized)

unfoldable pub require_agent_for_principal : String → Command Agent
require_agent_for_principal id = do
  found ← gets (λ w. first_row (λ a. str_eq a.principal_id id) w.agents)
  or_throw found (kernel_error forbidden)

-- `!context.activationId`: no Activation, or an empty text
abbrev pub named_activation : Option String → Option String
named_activation none = none
named_activation (some id) = if str_eq id "" then none else some id

-- authorizeActivationActor; the context is the id of its Activation
unfoldable pub authorize_activation_actor :
    Principal → Option String → Activation → Bool → Command Unit
authorize_activation_actor principal context activation allow_finished = do
  check (allow_finished || is_none activation.finished_at) (kernel_error conflict)
  if is_runtime principal.kind then pure tt else do
    check (is_agent principal.kind) (kernel_error forbidden)
    agent ← require_agent_for_principal principal.id
    check (str_eq agent.id activation.agent_id) (kernel_error forbidden)
    id ← or_throw (named_activation context) (kernel_error unauthorized)
    check (str_eq id activation.id) (kernel_error forbidden)

abbrev pub is_expected : Option ℕ → ℕ → Bool
is_expected none revision = true
is_expected (some expected) revision = revision == expected

unfoldable pub require_mutable_run : String → Option ℕ → Command Run
require_mutable_run id expected_revision = do
  run ← require_run id
  check (not (is_terminal_run_state run.state)) (kernel_error terminal_run)
  check (is_expected expected_revision run.revision) (kernel_error stale_revision)
  pure run

unfoldable pub require_run_activation : Option String → Principal → Run → Command Activation
require_run_activation context principal run = do
  require_kind principal is_agent
  id ← or_throw (named_activation context) (kernel_error unauthorized)
  activation ← require_live_activation id
  check (is_for_run activation run.id && str_eq activation.agent_id run.owner_agent_id)
      (kernel_error forbidden)
  agent ← require_agent_for_principal principal.id
  check (str_eq agent.id run.owner_agent_id) (kernel_error forbidden)
  assert_activation_scope_current activation
  pure activation
