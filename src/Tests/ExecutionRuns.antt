-- ===== src/Tests/ExecutionRuns.antt =====
-- packages/kernel/src/physical-worktrees.ts at one Worktree with one execution.
use torsor.Prelude.{refl, none, some, [], ◌∷◌, List, inr}
use torsor.Kernel.Action.{final}
use torsor.Kernel.Rows.{WorktreeExecution, running, write_probe}
use torsor.Kernel.World.{World, empty_db}
use torsor.Kernel.Physical.Commands.{execution_command, recover_execution}
use torsor.Kernel.Physical.Advances.{ExecutionsFollow, ExecutionsSound}
use torsor.Kernel.Physical.Monotone.{execution_command-ExecutionsFollow}
use torsor.Tests.Worlds.{alice, world_of}

abbrev pub execution : WorktreeExecution
execution = record {
  id = "x1";
  worktree_id = "wt";
  activation_id = "a1";
  runtime_principal_id = "alice";
  executor_id = "exec";
  execution_token = "token";
  generation = 1;
  fencing_token = 1;
  operation = write_probe;
  state = running;
  pid = some 17;
  authority_revoked = none;
  created_at = 10;
}

abbrev executions : List WorktreeExecution
executions = record execution { id = "x0"; worktree_id = "other" } ∷ execution ∷ []

executions-Sound : ExecutionsSound executions
executions-Sound = record {
  ids = ((refl, tt), (tt, tt));
  unsettled = (inr (refl, tt), (inr tt, tt));
}

abbrev running_world : World
running_world = world_of (record empty_db { worktree_executions = executions })

execution_command-ExecutionsFollow_example :
    ExecutionsFollow executions
      (final (
        execution_command
          (recover_execution "x1" "crash")
          alice
          "c"
          running_world)).worktree_executions
    × ExecutionsSound
        (final (
          execution_command
            (recover_execution "x1" "crash")
            alice
            "c"
            running_world)).worktree_executions
execution_command-ExecutionsFollow_example =
    execution_command-ExecutionsFollow (recover_execution "x1" "crash") alice "c" running_world
      executions-Sound
