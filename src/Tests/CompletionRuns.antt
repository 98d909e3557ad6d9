-- ===== src/Tests/CompletionRuns.antt =====
-- packages/kernel/src/runs.ts: a Run whose only input its Activation was given is completed, with a
-- final reply; and the search for a cycle among three inputs.
use torsor.Prelude.{◌≡◌, ◌≢◌, ◌↔◌, refl, String, true, some, List, [], ◌∷◌, any_row}
use torsor.Kernel.Action.{returned, final}
use torsor.Kernel.World.{World}
use torsor.Kernel.Results.{CommandResult, bare_result}
use torsor.Kernel.Values.{unique}
use torsor.Kernel.Messages.Scope.{assert_project_channel, check_thread_cursor}
use torsor.Kernel.Messages.Create.{
  open_thread, insert_message, insert_thread, mention, open_attention_for, create_message,
  MessageInput, Created, human_input,
}
use torsor.Kernel.Runs.Refused.{Refuses}
use torsor.Kernel.Runs.Supersession.{
  Edge, set, get, delete, next, unfinished, follow, walk, has_cycle,
}
use torsor.Kernel.Runs.Supersession.Measure.{walk-ends}
use torsor.Kernel.Runs.Supersession.Cycles.{Leads, has_cycle-Leads}
use torsor.Kernel.Runs.Completion.{
  CompleteRun, known_edges, validate_disposition, supersede, apply_exception, apply_exceptions,
  update_input, dispose_input, dispose_inputs, publish_final_reply, complete_run,
}
use torsor.Kernel.Runs.Completed.{CompletedIn, complete_run-Completes}
use torsor.Tests.Worlds.{result_or}
use torsor.Kernel.Messages.Published.{Publishes, create_message-Publishes}
use torsor.Kernel.Attentions.Rows.{require_agent, record_attention_history}
use torsor.Tests.EndingRuns.{owner, worker, run_world, run_code}

abbrev loop : List Edge
loop =
    record { source = "a"; target = "b" }
    ∷ record { source = "b"; target = "c" }
    ∷ record { source = "c"; target = "b" }
    ∷ []

loop_found : has_cycle loop ≡ true
unfolding has_cycle walk follow next get any_row
loop_found = refl

walk-ends_example : walk loop "a" ≢ unfinished
walk-ends_example = walk-ends loop "a"

has_cycle-Leads_example : (has_cycle loop ≡ true) ↔ ((x : String) × Leads loop x x)
has_cycle-Leads_example = has_cycle-Leads loop

abbrev completing_world : World
completing_world = record run_world {
  db = record run_world.db {
    channels = record { id = "channel"; project_id = "project"; name = "general" } ∷ [];
    activation_run_inputs =
        record { activation_id = "a1"; run_input_id = "i1"; run_input_sequence = 1 } ∷ [];
  };
}

abbrev completion : CompleteRun
completion = record {
  run_id = "run";
  expected_run_revision = 1;
  incorporated_through_input_sequence = 1;
  exceptions = [];
  final_reply =
      some (record { body = "done"; expected_thread_cursor = some 4; target_agent_ids = [] });
}

-- opens what a completion is made of
completion_code : Unit {0}
unfolding run_code assert_project_channel check_thread_cursor open_thread insert_message
    insert_thread mention open_attention_for create_message set get delete next follow walk
    has_cycle known_edges validate_disposition supersede apply_exception apply_exceptions
    update_input dispose_input dispose_inputs publish_final_reply complete_run unique
completion_code = tt

completed_world : World
completed_world = final (complete_run completion worker (some "a1") "c" completing_world)

completed_result : CommandResult
completed_result =
    result_or (bare_result "") (complete_run completion worker (some "a1") "c" completing_world)

complete_returns :
    complete_run completion worker (some "a1") "c" completing_world
    ≡ returned completed_result completed_world
unfolding completed_world completed_result completion_code
complete_returns = refl

complete_run-Completes_example : CompletedIn "run" completed_world × Refuses "run" completed_world
complete_run-Completes_example =
    complete_run-Completes completion worker (some "a1") "c" completing_world completed_world
      completed_result complete_returns

abbrev question : MessageInput
question =
    human_input owner "project" "channel" (some "thread") " what now " ("agent" ∷ "agent" ∷ []) "c"

published_world : World
published_world = final (create_message question completing_world)

no_message : Created
no_message = record { message_id = ""; message_revision_id = ""; thread_cursor = 0 }

published : Created
published = result_or no_message (create_message question completing_world)

publish_returns : create_message question completing_world ≡ returned published published_world
unfolding published_world published completion_code record_attention_history require_agent
publish_returns = refl

create_message-Publishes_example :
    Publishes question published completing_world.db published_world.db
create_message-Publishes_example =
    create_message-Publishes question completing_world published_world published publish_returns
