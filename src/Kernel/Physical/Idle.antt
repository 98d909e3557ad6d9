-- ===== src/Kernel/Physical/Idle.antt =====
-- packages/kernel/src/physical-worktrees.ts: assertPhysicalWorktreeIdle.
use torsor.Prelude.{
  String, Bool, false, not, ◌&&◌, ◌||◌, Option, none, some, str_eq, first_row, any_row,
}
use torsor.Kernel.Errors.{domain_busy}
use torsor.Kernel.Action.{check, gets, ◌>>=◌}
use torsor.Kernel.Rows.{PhysicalWorktree, WorktreeExecution, is_ready, is_stopped}
use torsor.Kernel.World.{Command, World}

abbrev pub is_unsafe : Option PhysicalWorktree → Bool
is_unsafe none = false
is_unsafe (some worktree) = not (is_ready worktree.state)

abbrev pub is_worktree : String → PhysicalWorktree → Bool
is_worktree id worktree = str_eq worktree.worktree_id id

-- an execution of the Worktree that is not known to have stopped
abbrev pub is_unsettled : String → WorktreeExecution → Bool
is_unsettled id execution = str_eq execution.worktree_id id && not (is_stopped execution.state)

unfoldable pub is_idle : World → String → Bool
unfolding first_row any_row
is_idle w id = not (
    is_unsafe (first_row (is_worktree id) w.physical_worktrees)
    || any_row (is_unsettled id) w.worktree_executions)

unfoldable pub assert_physical_worktree_idle : String → Bool → Command Unit
assert_physical_worktree_idle id durable = do
  idle ← gets (λ w. is_idle w id)
  check idle (record { code = domain_busy; durable = durable })
