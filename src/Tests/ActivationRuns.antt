-- ===== src/Tests/ActivationRuns.antt =====
-- packages/kernel/src/physical-worktrees.ts and invariants.ts where an Activation writes to a Worktree.
use torsor.Prelude.{
  str_eq, if◌then◌else◌, false, ◌≡◌, ◌↔◌, refl, none, [], ◌∷◌, first_row, any_row, where_rows,
  is_blank, is_space,
}
use torsor.Kernel.Action.{returned, final, catch, for_each, ◌>>=◌}
use torsor.Kernel.Rows.{PhysicalWorktree, ready, Run, active_run, Activation, for_run}
use torsor.Kernel.World.{World, now, fresh, empty_db}
use torsor.Kernel.Leases.Rows.{require_lease, get_lease}
use torsor.Kernel.Leases.Authority.{LeaseAuthority, refuse_lapsed, require_live_authority}
use torsor.Kernel.Activations.Validity.{
  run_scope, live, run_validity, activation_validity_at, require_run, require_activation,
  require_live_activation, load_scope_of, load_activation_scope_state,
  assert_activation_scope_current,
}
use torsor.Kernel.Activations.Actors.{require_principal}
use torsor.Kernel.Activations.Live.{IsLive, activation_validity_at-IsLive}
use torsor.Kernel.Physical.Rows.{
  Receipt, require_runtime, require_worktree, require_execution, require_receipt, when,
}
use torsor.Kernel.Physical.Authority.{
  require_source_activation, require_native_attempt, has_decision, require_execution_authority,
  assert_execution_authority, assert_activation_writer_authority, assert_worktree_mutation,
}
use torsor.Kernel.Physical.Mutates.{Mutates, assert_worktree_mutation-Executes}
use torsor.Kernel.Physical.Register.{NodePath, RegisterCommand, register_physical_worktree}
use torsor.Kernel.Physical.Disjoint.{Disjoint, register_physical_worktree-Disjoint}
use torsor.Tests.Worlds.{alice, alice_lease, table_with, world_of}
use torsor.Tests.ExecutionRuns.{execution}

abbrev pub run : Run
run = record {
  id = "run";
  project_id = "project";
  home_channel_id = "channel";
  thread_root_id = "thread";
  owner_agent_id = "agent";
  agent_config_revision = 1;
  causal_root_id = "root";
  parent_attention_id = "att";
  parent_run_id = none;
  delegation_depth = 0;
  state = active_run;
  revision = 1;
  activation_generation = 3;
  next_input_sequence = 1;
  next_activity_sequence = 1;
  created_at = 1;
  updated_at = 1;
  terminal_reason = none;
}

abbrev pub activation : Activation
activation = record {
  id = "a1";
  agent_id = "agent";
  cause = for_run "run" 3;
  config_revision = 1;
  started_at = 1;
  expires_at = 1000;
  revoked_at = none;
  revocation_reason = none;
  finished_at = none;
  outcome = none;
  detail = none;
}

abbrev worktree : PhysicalWorktree
worktree = record {
  worktree_id = "wt";
  run_id = "run";
  repository_id = "repo";
  repository_path = "/repo";
  base_revision = "base";
  directory_path = "/wt";
  directory_identity = "1:2";
  state = ready;
  created_at = 1;
}

abbrev writing_world : World
writing_world = world_of (record empty_db {
  principals = alice ∷ [];
  leases = table_with alice_lease;
  physical_worktrees = worktree ∷ [];
  worktree_executions = execution ∷ [];
  runs = run ∷ [];
  activations = activation ∷ [];
})

abbrev authority : LeaseAuthority
authority = record { worktree_id = "wt"; generation = 1; fencing_token = 1; lease_token = "secret" }

abbrev receipt : Receipt
receipt = record { execution_id = "x1"; executor_id = "exec"; execution_token = "token" }

written_world : World
written_world = final (assert_worktree_mutation authority receipt alice writing_world)

mutation_returns :
    assert_worktree_mutation authority receipt alice writing_world ≡ returned tt written_world
unfolding written_world assert_worktree_mutation assert_activation_writer_authority
    assert_execution_authority require_execution_authority has_decision require_native_attempt
    require_source_activation when require_runtime require_worktree require_execution
    require_receipt require_principal run_validity activation_validity_at require_run
    require_activation require_live_activation load_scope_of load_activation_scope_state
    assert_activation_scope_current refuse_lapsed require_live_authority require_lease get_lease
    first_row any_row where_rows is_blank is_space now fresh catch for_each ◌>>=◌
mutation_returns = refl

assert_worktree_mutation-Executes_example :
    (written_world.db ≡ writing_world.db)
    × Mutates writing_world written_world authority receipt alice
assert_worktree_mutation-Executes_example =
    assert_worktree_mutation-Executes authority receipt alice writing_world written_world
      mutation_returns

activation_validity_at-IsLive_example :
    (activation_validity_at activation (run_scope run) 500 ≡ live)
    ↔ IsLive activation (run_scope run) 500
activation_validity_at-IsLive_example = activation_validity_at-IsLive activation (run_scope run) 500

-- two different directories are side by side
abbrev side_by_side : NodePath
side_by_side = record {
  relative = λ parent child. if str_eq parent child then "" else "../sibling";
  is_absolute = λ path. false;
  sep = "/";
}

abbrev registration : RegisterCommand
registration = record {
  worktree_id = "wt2";
  run_id = "run";
  repository_id = "repo";
  repository_path = "/repo";
  base_revision = "0123456789012345678901234567890123456789";
  directory_path = "/wt2";
  directory_identity = "1:3";
}

register_physical_worktree-Disjoint_example :
    Disjoint side_by_side
      (final (
        register_physical_worktree side_by_side registration alice
          writing_world)).physical_worktrees
register_physical_worktree-Disjoint_example =
    register_physical_worktree-Disjoint side_by_side registration alice writing_world (tt, tt)
