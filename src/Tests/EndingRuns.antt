-- ===== src/Tests/EndingRuns.antt =====
-- packages/kernel/src/runs.ts: a Run with a Pending input and an Activation is cancelled, or fails.
use torsor.Prelude.{
  ◌≡◌, refl, some, [], ◌∷◌, first_row, where_rows, update_rows, any_row, is_blank, is_space,
}
use torsor.Kernel.Action.{returned, final, for_each, ◌>>=◌}
use torsor.Kernel.Rows.{Principal, human, agent}
use torsor.Kernel.World.{World, now, fresh, empty_db}
use torsor.Kernel.Results.{CommandResult, bare_result}
use torsor.Kernel.Guards.{require_kind}
use torsor.Kernel.Outbox.Rows.{enqueue_outbox}
use torsor.Kernel.Activations.Validity.{
  run_validity, activation_validity_at, require_run, require_activation, require_live_activation,
  load_scope_of, load_activation_scope_state, assert_activation_scope_current,
}
use torsor.Kernel.Activations.Actors.{
  require_mutable_run, require_run_activation, require_agent_for_principal,
}
use torsor.Kernel.Runs.Refused.{Refuses}
use torsor.Kernel.Runs.Events.{
  require_thread, emit_event, emit_thread_event, mark_activation_change, revoke_run_activations,
  causal_capacity,
}
use torsor.Kernel.Runs.Commands.{
  ends_failed, ends_cancelled, abandon_inputs, update_run, terminate_run, cancel_run, fail_run,
}
use torsor.Kernel.Runs.Ended.{EndedIn}
use torsor.Kernel.Runs.Closed.{cancel_run-Ended, fail_run-Ended}
use torsor.Kernel.Runs.Commands.{wait_run}
use torsor.Kernel.Runs.Paused.{PausedIn, wait_run-Paused}
use torsor.Tests.Worlds.{world_of, result_or}
use torsor.Tests.ActivationRuns.{run, activation}
use torsor.Tests.DeliveryRuns.{input}

abbrev pub owner : Principal
owner = record { id = "owner"; kind = human }

abbrev pub worker : Principal
worker = record { id = "worker"; kind = agent }

abbrev pub run_world : World
run_world = world_of (record empty_db {
  agents =
      record {
        id = "agent";
        principal_id = "worker";
        project_id = "project";
        current_config_revision = 1;
      }
      ∷ [];
  runs = run ∷ [];
  run_inputs = input ∷ [];
  activations = activation ∷ [];
  threads =
      record {
        root_message_id = "thread";
        project_id = "project";
        channel_id = "channel";
        cursor = 4;
      }
      ∷ [];
  causal_limits = some (record { max_depth = 4; max_non_terminal_runs_per_root = 50 });
})

-- opens what the commands are made of
unfoldable pub run_code : Unit {0}
unfolding require_kind enqueue_outbox run_validity activation_validity_at require_run
    require_activation require_live_activation load_scope_of load_activation_scope_state
    assert_activation_scope_current require_mutable_run require_run_activation
    require_agent_for_principal require_thread emit_event emit_thread_event mark_activation_change
    revoke_run_activations causal_capacity abandon_inputs update_run terminate_run now fresh
    first_row where_rows update_rows any_row is_blank is_space for_each ◌>>=◌
run_code = tt

cancelled_world : World
cancelled_world = final (cancel_run "run" 1 "no longer needed" owner "c" run_world)

cancelled_result : CommandResult
cancelled_result =
    result_or (bare_result "") (cancel_run "run" 1 "no longer needed" owner "c" run_world)

cancel_returns :
    cancel_run "run" 1 "no longer needed" owner "c" run_world
    ≡ returned cancelled_result cancelled_world
unfolding cancelled_world cancelled_result cancel_run run_code
cancel_returns = refl

cancel_run-Ended_example :
    EndedIn "run" ends_cancelled cancelled_world × Refuses "run" cancelled_world
cancel_run-Ended_example =
    cancel_run-Ended "run" 1 "no longer needed" owner "c" run_world cancelled_world cancelled_result
      cancel_returns

failed_world : World
failed_world = final (fail_run "run" 1 "broken" worker (some "a1") "c" run_world)

failed_result : CommandResult
failed_result =
    result_or (bare_result "") (fail_run "run" 1 "broken" worker (some "a1") "c" run_world)

fail_returns :
    fail_run "run" 1 "broken" worker (some "a1") "c" run_world ≡ returned failed_result failed_world
unfolding failed_world failed_result fail_run run_code
fail_returns = refl

fail_run-Ended_example : EndedIn "run" ends_failed failed_world × Refuses "run" failed_world
fail_run-Ended_example =
    fail_run-Ended "run" 1 "broken" worker (some "a1") "c" run_world failed_world failed_result
      fail_returns

waiting_world : World
waiting_world = final (wait_run "run" 1 "for an answer" worker (some "a1") "c" run_world)

waiting_result : CommandResult
waiting_result =
    result_or (bare_result "") (wait_run "run" 1 "for an answer" worker (some "a1") "c" run_world)

wait_returns :
    wait_run "run" 1 "for an answer" worker (some "a1") "c" run_world
    ≡ returned waiting_result waiting_world
unfolding waiting_world waiting_result wait_run run_code
wait_returns = refl

wait_run-Paused_example : PausedIn "run" waiting_world
wait_run-Paused_example =
    wait_run-Paused "run" 1 "for an answer" worker (some "a1") "c" run_world waiting_world
      waiting_result wait_returns
