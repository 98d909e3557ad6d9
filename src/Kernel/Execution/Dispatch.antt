-- ===== src/Kernel/Execution/Dispatch.antt =====
-- packages/kernel/src/kernel.ts: the commands on Activations, provider attempts and activity, as
-- #dispatchCommand calls them.
use torsor.Prelude.{String, Option}
use torsor.Kernel.Rows.{Principal, ActivationOutcome, AttemptStatus, Json}
use torsor.Kernel.World.{Command}
use torsor.Kernel.Results.{CommandResult}
use torsor.Kernel.Execution.Activations.{StartActivation, start_activation, finish_activation}
use torsor.Kernel.Execution.Attempts.{
  StartAttempt, start_provider_attempt, finish_provider_attempt, fail_provider_attempt,
}
use torsor.Kernel.Execution.Activities.{
  AppendActivity, append_run_activity, record_late_output, ParkRun,
  park_run_after_provider_attempt_failure,
}

pub data ActivationCommand : Type 0 where
  starts : StartActivation → ActivationCommand
  finishes : String → ActivationOutcome → Option String → ActivationCommand
  attempts : StartAttempt → ActivationCommand
  settles : String → AttemptStatus → Option String → ActivationCommand
  fails : String → String → ActivationCommand
  parks : ParkRun → ActivationCommand
  appends : AppendActivity → ActivationCommand
  records_late : String → Option String → Option String → Json → ActivationCommand

unfoldable pub dispatch_activation :
    ActivationCommand → Principal → Option String → String → Command CommandResult
dispatch_activation (starts c) p context correlation = start_activation c p correlation
dispatch_activation (finishes id outcome detail) p context correlation =
    finish_activation id outcome detail p context correlation
dispatch_activation (attempts c) p context correlation =
    start_provider_attempt c p context correlation
dispatch_activation (settles id status detail) p context correlation =
    finish_provider_attempt id status detail p context correlation
dispatch_activation (fails id error) p context correlation =
    fail_provider_attempt id error p context correlation
dispatch_activation (parks c) p context correlation =
    park_run_after_provider_attempt_failure c p correlation
dispatch_activation (appends c) p context correlation = append_run_activity c p context correlation
dispatch_activation (records_late run_id activation_id attempt_id payload) p context correlation =
    record_late_output run_id activation_id attempt_id payload p context correlation
