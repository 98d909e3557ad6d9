-- ===== src/Kernel/Messages/Revisions.antt =====
-- packages/kernel/src/collaboration.ts: the edition and the deletion of a Message.
use torsor.Prelude.{
  ℕ, ◌+◌, String, Bool, true, false, not, ◌&&◌, none, some, List, [], ◌∷◌, ◌++◌, str_eq, leb, ◌==◌,
  first_row, any_row, update_rows, trim, sort_texts,
}
use torsor.Kernel.Errors.{
  kernel_error, not_found, forbidden, conflict, invalid_command, stale_revision, internal,
}
use torsor.Kernel.Action.{pure, check, gets, modify, or_throw, for_each, ◌>>=◌, ◌>>◌}
use torsor.Kernel.Rows.{
  Principal, is_human, Message, MessageRevision, Json, string, number, array, bool, object, field,
  end,
}
use torsor.Kernel.World.{Command, now, fresh}
use torsor.Kernel.Values.{require_non_empty, unique}
use torsor.Kernel.Results.{CommandResult, bare_result}
use torsor.Kernel.Guards.{require_kind}
use torsor.Kernel.Outbox.Rows.{enqueue_outbox}
use torsor.Kernel.Runs.Events.{EventInput, emit_thread_event}
use torsor.Kernel.Attentions.Rows.{require_agent}
use torsor.Kernel.Attentions.Commands.{json_ids}
use torsor.Kernel.Messages.Create.{MessageInput, new_revision, open_attention_for}

abbrev pub is_message_id : String → Message → Bool
is_message_id id message = str_eq message.id id

unfoldable pub require_message : String → Command Message
require_message id = do
  found ← gets (λ w. first_row (is_message_id id) w.messages)
  or_throw found (kernel_error not_found)

abbrev pub is_revision_of : String → ℕ → MessageRevision → Bool
is_revision_of id n r = str_eq r.message_id id && r.revision == n

unfoldable pub latest_message_revision : Message → Command MessageRevision
latest_message_revision message = do
  found ←
      gets (λ w. first_row (is_revision_of message.id message.latest_revision) w.message_revisions)
  or_throw found (kernel_error internal)

unfoldable pub require_original_author : Message → Principal → Command Unit
require_original_author message principal =
    check (str_eq message.author_principal_id principal.id) (kernel_error forbidden)

unfoldable pub require_valid_revision : ℕ → Command Unit
require_valid_revision revision = check (leb 1 revision) (kernel_error invalid_command)

-- validateTargetAgentIds
unfoldable pub validate_target_agent_ids : List String → Command (List String)
validate_target_agent_ids ids = do
  check (not (any_row (λ id. str_eq id "") ids)) (kernel_error invalid_command)
  pure (sort_texts (unique ids))

-- the input of appendMessageRevision
pub record RevisionInput : Type 0 where
  pub message : Message
  pub revision : ℕ
  pub body : String
  pub tombstone : Bool
  pub target_agent_ids : List String
  pub actor : Principal
  pub correlation_id : String

-- what the Attentions of a revision are opened for
abbrev pub revised_input : RevisionInput → MessageInput
revised_input input = record {
  project_id = input.message.project_id;
  channel_id = input.message.channel_id;
  thread_root_id = some input.message.thread_root_id;
  reply_to_message_id = input.message.reply_to_message_id;
  author = input.actor;
  activation_id = none;
  author_agent_id = none;
  caused_by_attention_id = none;
  caused_by_run_id = none;
  body = input.body;
  target_agent_ids = input.target_agent_ids;
  suppressed_attention_agent_ids = [];
  correlation_id = input.correlation_id;
}

abbrev pub supersede_revision : ℕ → Message → Message
supersede_revision revision message = record message { latest_revision = revision }

-- The table has no two revisions of a Message with one number.
unfoldable pub insert_revision : RevisionInput → String → ℕ → Command Unit
insert_revision input id at = do
  known ← gets (λ w. any_row (is_revision_of input.message.id input.revision) w.message_revisions)
  check (not known) (kernel_error conflict)
  modify λ w. record w {
    db = record w.db {
      message_revisions =
          w.message_revisions
          ++ new_revision id input.message.id input.revision input.body input.tombstone at ∷ [];
      messages =
          update_rows (is_message_id input.message.id) (supersede_revision input.revision)
            w.messages;
    };
  }

-- the body of the loop over the Agents
unfoldable pub mention_again : RevisionInput → String → ℕ → String → Command Unit
mention_again input revision_id at target = do
  agent ← require_agent target
  check (str_eq agent.project_id input.message.project_id) (kernel_error forbidden)
  id ← fresh "mention"
  modify λ w. record w {
    db = record w.db {
      mentions =
          w.mentions
          ++ record {
            id = id;
            message_revision_id = revision_id;
            target_agent_id = target;
            created_at = at;
          }
            ∷ [];
    };
  }
  open_attention_for (revised_input input) input.message.thread_root_id revision_id target

unfoldable pub append_message_revision : RevisionInput → Command String
append_message_revision input = do
  id ← fresh "message_revision"
  at ← now
  insert_revision input id at
  for_each (mention_again input id at) input.target_agent_ids
  pure id

abbrev pub revision_event : String → Message → Principal → String → String → Json → EventInput
revision_event type message principal revision_id correlation payload = record {
  type = type;
  project_id = message.project_id;
  channel_id = message.channel_id;
  thread_root_id = message.thread_root_id;
  entity_type = "Message";
  entity_id = message.id;
  actor_principal_id = principal.id;
  activation_id = none;
  causation_id = some revision_id;
  correlation_id = correlation;
  payload = payload;
}

-- the checks that both commands begin with: the Message, not yet a tombstone
unfoldable pub require_revisable : String → ℕ → Principal → Command Message
require_revisable id expected principal = do
  require_kind principal is_human
  require_valid_revision expected
  message ← require_message id
  require_original_author message principal
  latest ← latest_message_revision message
  check (message.latest_revision == expected) (kernel_error stale_revision)
  check (not latest.tombstone) (kernel_error conflict)
  pure message

unfoldable pub edit_message :
    String → ℕ → String → List String → Principal → String → Command CommandResult
edit_message id expected body targets principal correlation = do
  message ← require_revisable id expected principal
  require_non_empty body
  ids ← validate_target_agent_ids targets
  revision_id ← append_message_revision (record {
    message = message;
    revision = message.latest_revision + 1;
    body = trim body;
    tombstone = false;
    target_agent_ids = ids;
    actor = principal;
    correlation_id = correlation;
  })
  cursor ← emit_thread_event (
      revision_event "MessageEdited" message principal revision_id correlation (
        object (
          field "messageRevisionId" (string revision_id) (
            field "revision" (number (message.latest_revision + 1))
              (field "targetAgentIds" (array (json_ids ids)) end)))))
  enqueue_outbox "message.revised" "Message" id (
      object (
        field "messageRevisionId" (string revision_id) (
          field "threadRootId" (string message.thread_root_id)
            (field "tombstone" (bool false) end))))
  pure (record (bare_result id) {
    revision = some (message.latest_revision + 1);
    thread_cursor = some cursor;
  })

unfoldable pub delete_message : String → ℕ → Principal → String → Command CommandResult
delete_message id expected principal correlation = do
  message ← require_revisable id expected principal
  revision_id ← append_message_revision (record {
    message = message;
    revision = message.latest_revision + 1;
    body = "";
    tombstone = true;
    target_agent_ids = [];
    actor = principal;
    correlation_id = correlation;
  })
  cursor ← emit_thread_event (
      revision_event "MessageDeleted" message principal revision_id correlation (
        object (
          field "messageRevisionId" (string revision_id) (
            field "revision" (number (message.latest_revision + 1))
              (field "tombstone" (bool true) end)))))
  enqueue_outbox "message.revised" "Message" id (
      object (
        field "messageRevisionId" (string revision_id) (
          field "threadRootId" (string message.thread_root_id)
            (field "tombstone" (bool true) end))))
  pure (record (bare_result id) {
    revision = some (message.latest_revision + 1);
    thread_cursor = some cursor;
  })
