-- ===== src/Tests/AttemptRuns.antt =====
-- packages/kernel/src/execution.ts: an Activation of a Run is superseded by a new one, its provider
-- attempt fails, and it reports activity.
use torsor.Prelude.{
  ◌≤◌, ◌≡◌, refl, Bool, true, false, none, some, [], ◌∷◌, arith, where_rows, length, if◌then◌else◌,
}
use torsor.Kernel.Action.{returned, final}
use torsor.Kernel.Rows.{ProviderAttempt, started, null, durable}
use torsor.Kernel.World.{World}
use torsor.Kernel.Results.{CommandResult, bare_result}
use torsor.Kernel.Outbox.Delivery.{
  require_outbox_delivery_authority, require_outbox_activation_authority,
}
use torsor.Kernel.Activations.Actors.{authorize_activation_actor}
use torsor.Kernel.Runs.Events.{is_revocable}
use torsor.Kernel.Attentions.Rows.{require_agent}
use torsor.Kernel.Messages.Scope.{place_of_cause, activation_scope}
use torsor.Kernel.Execution.Activations.{
  begin_activation, resume_run, regenerate_run, advance_run, start_for_run, start_for,
  start_activation,
}
use torsor.Kernel.Execution.Attempts.{
  require_provider_attempt, finishing_time, require_settling_agent, update_attempt,
  set_provider_attempt_status, fail_provider_attempt,
}
use torsor.Kernel.Execution.Activities.{
  insert_activity, provenance_id, validate_activity_provenance, append_run_activity,
}
use torsor.Kernel.Execution.Dispatch.{
  ActivationCommand, starts, fails, appends, dispatch_activation,
}
use torsor.Kernel.Execution.Solo.{Solo, dispatch_activation-Solo}
use torsor.Kernel.Execution.Progress.{AttemptsFollow, DistinctAttempts}
use torsor.Kernel.Execution.Settled.{dispatch_activation-AttemptsFollow}
use torsor.Kernel.Execution.Numbered.{Numbered, dispatch_activation-Numbered}
use torsor.Tests.Worlds.{alice, result_or}
use torsor.Tests.ActivationRuns.{run, activation}
use torsor.Tests.DeliveryRuns.{events, command, delivery_code}
use torsor.Tests.EndingRuns.{worker, run_world, run_code}

abbrev attempt : ProviderAttempt
attempt = record {
  id = "p1";
  activation_id = "a1";
  run_id = some "run";
  adapter = "acp";
  adapter_version = "1";
  capability_snapshot = null;
  run_input_ids = "i1" ∷ [];
  request_idempotency_key = "k1";
  status = started;
  detail = none;
  started_at = 1;
  finished_at = none;
}

abbrev attempt_world : World
attempt_world = record run_world {
  db = record run_world.db { outbox_events = events; provider_attempts = attempt ∷ [] };
}

abbrev start : ActivationCommand
start = starts (record {
  run_id = some "run";
  attention_id = none;
  handler_lease_token = none;
  expected_run_revision = some 1;
  outbox = command;
  duration_ms = 1000;
})

abbrev failure : ActivationCommand
failure = fails "p1" "broken"

abbrev report : ActivationCommand
report = appends (record {
  run_id = "run";
  activation_id = some "a1";
  provider_attempt_id = none;
  kind = "progress";
  payload = null;
  retention_class = durable;
})

-- opens what the commands are made of
attempt_code : Unit {0}
unfolding delivery_code run_code require_outbox_delivery_authority
    require_outbox_activation_authority authorize_activation_actor require_agent place_of_cause
    activation_scope begin_activation resume_run regenerate_run advance_run start_for_run start_for
    start_activation require_provider_attempt finishing_time require_settling_agent update_attempt
    set_provider_attempt_status fail_provider_attempt insert_activity provenance_id
    validate_activity_provenance append_run_activity dispatch_activation
attempt_code = tt

started_world : World
started_world = final (dispatch_activation start alice none "c" attempt_world)

start_result : CommandResult
start_result = result_or (bare_result "") (dispatch_activation start alice none "c" attempt_world)

start_returns :
    dispatch_activation start alice none "c" attempt_world ≡ returned start_result started_world
unfolding started_world start_result attempt_code
start_returns = refl

one_activation : Solo (activation ∷ [])
unfolding where_rows
one_activation id = few (is_revocable id activation)
  where
    few : (b : Bool) → length (if b then activation ∷ [] else []) ≤ 1
    few true = omega arith
    few false = omega arith

dispatch_activation-Solo_example : Solo started_world.activations
dispatch_activation-Solo_example =
    dispatch_activation-Solo start alice none "c" attempt_world started_world start_result
      one_activation start_returns

failed_world : World
failed_world = final (dispatch_activation failure alice none "c" attempt_world)

failure_result : CommandResult
failure_result =
    result_or (bare_result "") (dispatch_activation failure alice none "c" attempt_world)

failure_returns :
    dispatch_activation failure alice none "c" attempt_world ≡ returned failure_result failed_world
unfolding failed_world failure_result attempt_code
failure_returns = refl

dispatch_activation-AttemptsFollow_example :
    DistinctAttempts failed_world.provider_attempts
    × AttemptsFollow (attempt ∷ []) failed_world.provider_attempts
dispatch_activation-AttemptsFollow_example =
    dispatch_activation-AttemptsFollow failure alice none "c" attempt_world failed_world
      failure_result (tt, tt) failure_returns

reported_world : World
reported_world = final (dispatch_activation report worker (some "a1") "c" attempt_world)

report_result : CommandResult
report_result =
    result_or (bare_result "") (dispatch_activation report worker (some "a1") "c" attempt_world)

report_returns :
    dispatch_activation report worker (some "a1") "c" attempt_world
    ≡ returned report_result reported_world
unfolding reported_world report_result attempt_code
report_returns = refl

no_activity : Numbered (run ∷ []) []
no_activity = record { distinct = tt; below = λ id r h. tt }

dispatch_activation-Numbered_example :
    Numbered reported_world.runs reported_world.run_activity_events
dispatch_activation-Numbered_example =
    dispatch_activation-Numbered report worker (some "a1") "c" attempt_world reported_world
      report_result no_activity report_returns
