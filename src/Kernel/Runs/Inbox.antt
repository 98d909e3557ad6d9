-- ===== src/Kernel/Runs/Inbox.antt =====
-- packages/kernel/src/runs.ts: a Human sends to a Run, an input is withdrawn, the Run replies.
use torsor.Prelude.{
  ℕ, ◌+◌, String, Option, none, some, List, [], ◌∷◌, str_eq, first_row, ◌==◌, if◌then◌else◌,
}
use torsor.Kernel.Errors.{
  kernel_error, not_found, forbidden, conflict, invalid_command, stale_revision,
}
use torsor.Kernel.Action.{pure, check, gets, or_throw, ◌>>=◌, ◌>>◌}
use torsor.Kernel.Rows.{
  Principal, is_human, is_agent, Run, RunInput, withdrawn, is_pending, string, number, object,
  field, end,
}
use torsor.Kernel.World.{Command, now}
use torsor.Kernel.Values.{require_non_empty}
use torsor.Kernel.Results.{CommandResult, bare_result}
use torsor.Kernel.Guards.{require_kind}
use torsor.Kernel.Outbox.Rows.{enqueue_outbox}
use torsor.Kernel.Activations.Actors.{require_mutable_run, require_run_activation}
use torsor.Kernel.Runs.Events.{require_thread, emit_thread_event}
use torsor.Kernel.Runs.Commands.{update_run}
use torsor.Kernel.Runs.Inputs.{create_run_input}
use torsor.Kernel.Runs.Completion.{is_input, update_input, reply_input}
use torsor.Kernel.Messages.Scope.{check_thread_cursor}
use torsor.Kernel.Messages.Create.{MessageInput, create_message}

-- what a Human writes to a Run, for which its Agent gets no Attention
abbrev pub sent_input : Run → Principal → String → List String → String → MessageInput
sent_input run principal body targets correlation = record {
  project_id = run.project_id;
  channel_id = run.home_channel_id;
  thread_root_id = some run.thread_root_id;
  reply_to_message_id = some run.thread_root_id;
  author = principal;
  activation_id = none;
  author_agent_id = none;
  caused_by_attention_id = none;
  caused_by_run_id = none;
  body = body;
  target_agent_ids = targets;
  suppressed_attention_agent_ids = run.owner_agent_id ∷ [];
  correlation_id = correlation;
}

abbrev pub receive : ℕ → ℕ → ℕ → Run → Run
receive revision next at run = record run {
  revision = revision;
  next_input_sequence = next;
  updated_at = at;
}

unfoldable pub send_to_run :
    String → Option ℕ → String → List String → Principal → String → Command CommandResult
send_to_run run_id expected body targets principal correlation = do
  require_kind principal is_human
  revision ← or_throw expected (kernel_error invalid_command)
  run ← require_mutable_run run_id (some revision)
  created ← create_message (sent_input run principal body targets correlation)
  input ← create_run_input run created.message_revision_id principal.id none none
  at ← now
  update_run run_id (receive (run.revision + 1) (input.run_input_sequence + 1) at)
  told ← emit_thread_event (record {
    type = "RunInputAdded";
    project_id = run.project_id;
    channel_id = run.home_channel_id;
    thread_root_id = run.thread_root_id;
    entity_type = "RunInput";
    entity_id = input.id;
    actor_principal_id = principal.id;
    activation_id = none;
    causation_id = some created.message_revision_id;
    correlation_id = correlation;
    payload =
        object
          (field "runId" (string run_id) (field "sequence" (number input.run_input_sequence) end));
  })
  enqueue_outbox "run-input.available" "Run" run_id (
      object (
        field "runInputId" (string input.id) (field "runRevision" (number (run.revision + 1)) end)))
  thread ← require_thread run.thread_root_id
  pure (record (bare_result created.message_id) {
    revision = some (run.revision + 1);
    thread_cursor = some thread.cursor;
  })

unfoldable pub require_run_input : String → Command RunInput
require_run_input id = do
  found ← gets (λ w. first_row (is_input id) w.run_inputs)
  or_throw found (kernel_error not_found)

-- the Activation of an Agent that withdraws
unfoldable pub withdrawing_activation : Principal → Option String → Run → Command (Option String)
withdrawing_activation principal context run =
    if is_agent principal.kind
    then (do activation ← require_run_activation context principal run; pure (some activation.id))
    else do check (is_human principal.kind) (kernel_error forbidden); pure none

abbrev pub withdraw : ℕ → String → RunInput → RunInput
withdraw revision reason input = record input {
  disposition = withdrawn;
  disposition_revision = revision;
  disposition_reason = some reason;
  superseded_by_run_input_id = none;
}

abbrev pub revise : ℕ → ℕ → Run → Run
revise revision at run = record run { revision = revision; updated_at = at }

-- WithdrawRunInputCommand
pub record WithdrawInput : Type 0 where
  pub run_input_id : String
  pub expected_run_revision : ℕ
  pub expected_disposition_revision : ℕ
  pub reason : String

unfoldable pub withdraw_run_input :
    WithdrawInput → Principal → Option String → String → Command CommandResult
withdraw_run_input c principal context correlation = do
  input ← require_run_input c.run_input_id
  run ← require_mutable_run input.run_id (some c.expected_run_revision)
  check (input.disposition_revision == c.expected_disposition_revision)
      (kernel_error stale_revision)
  check (is_pending input.disposition) (kernel_error conflict)
  check (str_eq input.assigned_by_principal_id principal.id) (kernel_error forbidden)
  activation_id ← withdrawing_activation principal context run
  require_non_empty c.reason
  update_input c.run_input_id (withdraw (input.disposition_revision + 1) c.reason)
  at ← now
  update_run run.id (revise (run.revision + 1) at)
  cursor ← emit_thread_event (record {
    type = "RunInputWithdrawn";
    project_id = run.project_id;
    channel_id = run.home_channel_id;
    thread_root_id = run.thread_root_id;
    entity_type = "RunInput";
    entity_id = c.run_input_id;
    actor_principal_id = principal.id;
    activation_id = activation_id;
    causation_id = some c.run_input_id;
    correlation_id = correlation;
    payload = object (
        field "runId" (string run.id) (
          field "runRevision" (number (run.revision + 1)) (
            field "dispositionRevision" (number (input.disposition_revision + 1))
              (field "reason" (string c.reason) end))));
  })
  enqueue_outbox "run-input.withdrawn" "RunInput" c.run_input_id (
      object (
        field "runId" (string run.id) (
          field "runRevision" (number (run.revision + 1))
            (field "dispositionRevision" (number (input.disposition_revision + 1)) end))))
  pure (record (bare_result c.run_input_id) {
    revision = some (input.disposition_revision + 1);
    thread_cursor = some cursor;
  })

-- PublishRunReplyCommand
pub record PublishReply : Type 0 where
  pub run_id : String
  pub expected_run_revision : ℕ
  pub expected_thread_cursor : Option ℕ
  pub body : String
  pub target_agent_ids : List String

unfoldable pub publish_run_reply :
    PublishReply → Principal → Option String → String → Command CommandResult
publish_run_reply c principal context correlation = do
  run ← require_mutable_run c.run_id (some c.expected_run_revision)
  activation ← require_run_activation context principal run
  thread ← require_thread run.thread_root_id
  check_thread_cursor thread principal context c.expected_thread_cursor
  created ←
      create_message (reply_input run principal activation.id c.body c.target_agent_ids correlation)
  pure (record (bare_result created.message_id) {
    revision = some run.revision;
    thread_cursor = some created.thread_cursor;
  })
