-- ===== src/Kernel/Runs/Completion.antt =====
-- packages/kernel/src/runs.ts: completeRun.
use torsor.Prelude.{
  ℕ, ◌+◌, String, Bool, true, false, not, ◌&&◌, ◌||◌, Option, none, some, List, [], ◌∷◌, length,
  str_eq, is_none, ltb, leb, ◌==◌, first_row, given, where_rows, update_rows, any_row,
  if◌then◌else◌,
}
use torsor.Kernel.Errors.{kernel_error, invalid_command, forbidden, pending_run_inputs}
use torsor.Kernel.Action.{pure, check, gets, modify, or_throw, for_each, ◌>>=◌, ◌>>◌}
use torsor.Kernel.Rows.{
  Principal, Run, completed, RunInput, Disposition, incorporated, superseded, is_pending,
  ActivationRunInput, number, object, field, end,
}
use torsor.Kernel.World.{Command, now}
use torsor.Kernel.Values.{require_non_empty, unique}
use torsor.Kernel.Results.{CommandResult, bare_result}
use torsor.Kernel.Outbox.Rows.{enqueue_outbox}
use torsor.Kernel.Activations.Actors.{require_mutable_run, require_run_activation}
use torsor.Kernel.Runs.Events.{
  require_thread, emit_thread_event, revoke_run_activations, causal_capacity,
}
use torsor.Kernel.Runs.Commands.{update_run, is_pending_of}
use torsor.Kernel.Runs.Supersession.{Edge, set, delete, has_cycle}
use torsor.Kernel.Attentions.Resolutions.{json_or_null}
use torsor.Kernel.Messages.Scope.{check_thread_cursor}
use torsor.Kernel.Messages.Create.{MessageInput, create_message}

-- CompletionException
pub record CompletionException : Type 0 where
  pub run_input_id : String
  pub disposition : Disposition
  pub reason : String
  pub superseded_by_run_input_id : Option String

pub record FinalReply : Type 0 where
  pub body : String
  pub expected_thread_cursor : Option ℕ
  pub target_agent_ids : List String

pub record CompleteRun : Type 0 where
  pub run_id : String
  pub expected_run_revision : ℕ
  pub incorporated_through_input_sequence : ℕ
  pub exceptions : List CompletionException
  pub final_reply : Option FinalReply

abbrev pub exception_ids : List CompletionException → List String
exception_ids [] = []
exception_ids (e ∷ es) = e.run_input_id ∷ exception_ids es

abbrev pub is_superseded : Disposition → Bool
is_superseded superseded = true
is_superseded _ = false

-- the entries of inputs that are Superseded already
abbrev pub add_edge : RunInput → List Edge → List Edge
add_edge input es =
    if is_superseded input.disposition
    then (elim (given input.superseded_by_run_input_id) [
      | none ↦ es
      | some target ↦ set input.id target es
    ])
    else es

unfoldable pub known_edges : List RunInput → List Edge → List Edge
known_edges [] es = es
known_edges (input ∷ inputs) es = known_edges inputs (add_edge input es)

-- validateDisposition
abbrev pub may_except : Disposition → Bool
may_except Disposition.pending = false
may_except Disposition.incorporated = false
may_except Disposition.withdrawn = false
may_except _ = true

unfoldable pub validate_disposition : Disposition → String → Command Unit
validate_disposition disposition reason = do
  check (may_except disposition) (kernel_error invalid_command)
  require_non_empty reason

abbrev pub is_input : String → RunInput → Bool
is_input id input = str_eq input.id id

-- the target of a Superseded exception: another input of the Run
unfoldable pub supersede : List RunInput → CompletionException → List Edge → Command (List Edge)
supersede inputs e es = do
  target ← or_throw (given e.superseded_by_run_input_id) (kernel_error invalid_command)
  check (any_row (is_input target) inputs && not (str_eq target e.run_input_id))
      (kernel_error invalid_command)
  pure (set e.run_input_id target es)

unfoldable pub apply_exception :
    List RunInput → ℕ → CompletionException → List Edge → Command (List Edge)
apply_exception inputs through e es = do
  input ← or_throw (first_row (is_input e.run_input_id) inputs) (kernel_error invalid_command)
  check (leb input.run_input_sequence through) (kernel_error invalid_command)
  validate_disposition e.disposition e.reason
  if is_superseded e.disposition then supersede inputs e es else do
    check (is_none (given e.superseded_by_run_input_id)) (kernel_error invalid_command)
    pure (delete e.run_input_id es)

unfoldable pub apply_exceptions :
    List RunInput → ℕ → List CompletionException → List Edge → Command (List Edge)
apply_exceptions inputs through [] es = pure es
apply_exceptions inputs through (e ∷ exceptions) es = do
  es' ← apply_exception inputs through e es
  apply_exceptions inputs through exceptions es'

abbrev pub except_with : CompletionException → RunInput → RunInput
except_with e input = record input {
  disposition = e.disposition;
  disposition_revision = input.disposition_revision + 1;
  disposition_reason = some e.reason;
  superseded_by_run_input_id =
      if is_superseded e.disposition then e.superseded_by_run_input_id else none;
}

abbrev pub incorporate : RunInput → RunInput
incorporate input = record input {
  disposition = incorporated;
  disposition_revision = input.disposition_revision + 1;
  disposition_reason = none;
}

abbrev pub dispose_with : Option CompletionException → RunInput → RunInput
dispose_with none input = incorporate input
dispose_with (some e) input = except_with e input

abbrev pub is_supplied : String → String → ActivationRunInput → Bool
is_supplied activation_id input_id row =
    str_eq row.activation_id activation_id && str_eq row.run_input_id input_id

-- UPDATE run_inputs SET ... WHERE id = ?
unfoldable pub update_input : String → (RunInput → RunInput) → Command Unit
update_input id change = modify λ w. record w {
  db = record w.db { run_inputs = update_rows (is_input id) change w.run_inputs };
}

abbrev pub is_exception : String → CompletionException → Bool
is_exception id e = str_eq e.run_input_id id

-- the body of the last loop over the inputs
unfoldable pub dispose_input : String → ℕ → List CompletionException → RunInput → Command Unit
dispose_input activation_id through exceptions input =
    if not (is_pending input.disposition) || ltb through input.run_input_sequence
    then pure tt
    else do
      supplied ← gets (λ w. any_row (is_supplied activation_id input.id) w.activation_run_inputs)
      check supplied (kernel_error forbidden)
      update_input input.id (dispose_with (first_row (is_exception input.id) exceptions))

-- The checks and the disposal of the inputs. The rows of the Run's inputs stand in the order of
-- their sequence numbers.
unfoldable pub dispose_inputs : CompleteRun → String → Command Unit
dispose_inputs c activation_id = do
  check (length (unique (exception_ids c.exceptions)) == length c.exceptions)
      (kernel_error invalid_command)
  inputs ← gets (λ w. where_rows (λ i. str_eq i.run_id c.run_id) w.run_inputs)
  edges ←
      apply_exceptions inputs c.incorporated_through_input_sequence c.exceptions
        (known_edges inputs [])
  check (not (has_cycle edges)) (kernel_error invalid_command)
  for_each (dispose_input activation_id c.incorporated_through_input_sequence c.exceptions) inputs
  pending ← gets (λ w. any_row (is_pending_of c.run_id) w.run_inputs)
  check (not pending) (kernel_error pending_run_inputs)

abbrev pub reply_input : Run → Principal → String → String → List String → String → MessageInput
reply_input run principal activation_id body targets correlation = record {
  project_id = run.project_id;
  channel_id = run.home_channel_id;
  thread_root_id = some run.thread_root_id;
  reply_to_message_id = some run.thread_root_id;
  author = principal;
  activation_id = some activation_id;
  author_agent_id = some run.owner_agent_id;
  caused_by_attention_id = none;
  caused_by_run_id = some run.id;
  body = body;
  target_agent_ids = targets;
  suppressed_attention_agent_ids = [];
  correlation_id = correlation;
}

-- the id of the Message, if there is a final reply
unfoldable pub publish_final_reply :
    Option FinalReply → Run → Principal → Option String → String → String → Command (Option String)
publish_final_reply none run principal context activation_id correlation = pure none
publish_final_reply (some reply) run principal context activation_id correlation = do
  thread ← require_thread run.thread_root_id
  check_thread_cursor thread principal context reply.expected_thread_cursor
  created ←
      create_message
        (reply_input run principal activation_id reply.body reply.target_agent_ids correlation)
  pure (some created.message_id)

abbrev pub complete : ℕ → ℕ → Run → Run
complete revision at run = record run {
  state = completed;
  revision = revision;
  updated_at = at;
  terminal_reason = none;
}

unfoldable pub complete_run :
    CompleteRun → Principal → Option String → String → Command CommandResult
complete_run c principal context correlation = do
  run ← require_mutable_run c.run_id (some c.expected_run_revision)
  activation ← require_run_activation context principal run
  dispose_inputs c activation.id
  message_id ← publish_final_reply c.final_reply run principal context activation.id correlation
  at ← now
  update_run c.run_id (complete (run.revision + 1) at)
  revoked ← now
  revoke_run_activations c.run_id "run_completed" revoked
  capacity ← causal_capacity run.causal_root_id
  cursor ← emit_thread_event (record {
    type = "RunCompleted";
    project_id = run.project_id;
    channel_id = run.home_channel_id;
    thread_root_id = run.thread_root_id;
    entity_type = "Run";
    entity_id = c.run_id;
    actor_principal_id = principal.id;
    activation_id = some activation.id;
    causation_id = some activation.id;
    correlation_id = correlation;
    payload = object (
        field "revision" (number (run.revision + 1))
          (field "finalMessageId" (json_or_null message_id) capacity));
  })
  enqueue_outbox "run.completed" "Run" c.run_id (
      object (
        field "revision" (number (run.revision + 1))
          (field "finalMessageId" (json_or_null message_id) end)))
  pure (record (bare_result c.run_id) {
    revision = some (run.revision + 1);
    thread_cursor = some cursor;
  })
