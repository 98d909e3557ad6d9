-- ===== src/Kernel/Messages/Scope.antt =====
-- packages/kernel/src/invariants.ts: what a principal may read, and the check of a Thread's cursor.
use torsor.Prelude.{ℕ, String, Bool, Option, none, some, str_eq, first_row, if◌then◌else◌}
use torsor.Kernel.Errors.{
  kernel_error, not_found, forbidden, unauthorized, conditional_check_failed,
}
use torsor.Kernel.Action.{pure, throw, check, gets, or_throw, ◌>>=◌, ◌>>◌}
use torsor.Kernel.Rows.{
  Principal, is_agent, Run, Attention, Activation, Cause, for_run, for_attention, Thread, Project,
  Channel,
}
use torsor.Kernel.World.{Command}
use torsor.Kernel.Activations.Validity.{
  require_run, require_attention, require_live_activation, assert_activation_scope_current,
}
use torsor.Kernel.Activations.Actors.{require_agent_for_principal, named_activation, is_expected}

abbrev pub is_channel : String → Channel → Bool
is_channel id channel = str_eq channel.id id

unfoldable pub assert_project_channel : String → String → Command Unit
assert_project_channel project_id channel_id = do
  found ← gets (λ w. first_row (is_channel channel_id) w.channels)
  channel ← or_throw found (kernel_error not_found)
  check (str_eq channel.project_id project_id) (kernel_error forbidden)

abbrev pub is_project : String → Project → Bool
is_project id project = str_eq project.id id

unfoldable pub require_project : String → Command Project
require_project id = do
  found ← gets (λ w. first_row (is_project id) w.projects)
  or_throw found (kernel_error not_found)

unfoldable pub assert_project_access : Principal → String → Command Unit
assert_project_access principal project_id =
    if is_agent principal.kind
    then (do
      agent ← require_agent_for_principal principal.id
      check (str_eq agent.project_id project_id) (kernel_error forbidden))
    else pure tt

-- the answer of activationScope
pub record Place : Type 0 where
  pub project_id : String
  pub channel_id : String
  pub thread_root_id : String

abbrev pub place_of_run : Run → Place
place_of_run run = record {
  project_id = run.project_id;
  channel_id = run.home_channel_id;
  thread_root_id = run.thread_root_id;
}

abbrev pub place_of_attention : Attention → Place
place_of_attention attention = record {
  project_id = attention.project_id;
  channel_id = attention.channel_id;
  thread_root_id = attention.thread_root_id;
}

unfoldable pub place_of_cause : Cause → Command Place
place_of_cause (for_run id generation) = do run ← require_run id; pure (place_of_run run)
place_of_cause (for_attention id token) = do
  attention ← require_attention id
  pure (place_of_attention attention)

unfoldable pub activation_scope : Activation → Command Place
activation_scope activation = place_of_cause activation.cause

-- PrincipalReadScope; one that is bounded by a Thread is so by its Channel too
pub record ReadScope : Type 0 where
  pub project_id : String
  pub bounds : Option Place
  pub run_id : Option String

abbrev pub run_of_cause : Cause → Option String
run_of_cause (for_run id generation) = some id
run_of_cause (for_attention id token) = none

-- the part of resolvePrincipalReadScope for an Agent
unfoldable pub agent_read_scope : Principal → Option String → String → Command ReadScope
agent_read_scope principal context project_id = do
  id ← or_throw (named_activation context) (kernel_error unauthorized)
  agent ← require_agent_for_principal principal.id
  activation ← require_live_activation id
  check (str_eq activation.agent_id agent.id) (kernel_error forbidden)
  assert_activation_scope_current activation
  place ← activation_scope activation
  check (str_eq place.project_id project_id) (kernel_error forbidden)
  pure (record {
    project_id = place.project_id;
    bounds = some place;
    run_id = run_of_cause activation.cause;
  })

unfoldable pub resolve_principal_read_scope : Principal → Option String → String → Command ReadScope
resolve_principal_read_scope principal context project_id = do
  project ← require_project project_id
  assert_project_access principal project_id
  if is_agent principal.kind
      then agent_read_scope principal context project_id
      else pure (record { project_id = project_id; bounds = none; run_id = none })

-- checkThreadCursor. The events since the expected cursor are details of the error.
unfoldable pub check_thread_cursor : Thread → Principal → Option String → Option ℕ → Command Unit
check_thread_cursor thread principal context expected =
    if is_expected expected thread.cursor then pure tt else do
      scope ← resolve_principal_read_scope principal context thread.project_id
      throw (kernel_error conditional_check_failed)
