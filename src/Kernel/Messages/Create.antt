-- ===== src/Kernel/Messages/Create.antt =====
-- packages/kernel/src/collaboration.ts: createMessage, and the commands of Humans that use it.
use torsor.Prelude.{
  ℕ, ◌+◌, String, Bool, true, false, not, ◌&&◌, Option, none, some, List, [], ◌∷◌, ◌++◌, str_eq,
  is_text, any_row, trim, if◌then◌else◌,
}
use torsor.Kernel.Errors.{kernel_error, forbidden}
use torsor.Kernel.Action.{pure, check, modify, for_each, ◌>>=◌, ◌>>◌}
use torsor.Kernel.Rows.{
  Message, MessageRevision, Principal, is_human, Attention, open_attention, string, array, object,
  field, end,
}
use torsor.Kernel.World.{Command, now, fresh}
use torsor.Kernel.Values.{require_non_empty, unique}
use torsor.Kernel.Results.{CommandResult, bare_result}
use torsor.Kernel.Guards.{require_kind}
use torsor.Kernel.Outbox.Rows.{enqueue_outbox}
use torsor.Kernel.Runs.Events.{require_thread, emit_event, emit_thread_event}
use torsor.Kernel.Attentions.Rows.{require_agent, record_attention_history}
use torsor.Kernel.Attentions.Commands.{json_ids}
use torsor.Kernel.Attentions.Resolutions.{json_or_null}
use torsor.Kernel.Messages.Scope.{assert_project_channel, check_thread_cursor}

-- the input of createMessage; a list that is left out is empty
pub record MessageInput : Type 0 where
  pub project_id : String
  pub channel_id : String
  pub thread_root_id : Option String
  pub reply_to_message_id : Option String
  pub author : Principal
  pub activation_id : Option String
  pub author_agent_id : Option String
  pub caused_by_attention_id : Option String
  pub caused_by_run_id : Option String
  pub body : String
  pub target_agent_ids : List String
  pub suppressed_attention_agent_ids : List String
  pub correlation_id : String

pub record Created : Type 0 where
  pub message_id : String
  pub message_revision_id : String
  pub thread_cursor : ℕ

-- `input.threadRootId ?? messageId`
abbrev pub root_or : Option String → String → String
root_or none id = id
root_or (some root) id = root

-- `!input.threadRootId`: no Thread, or an empty text
abbrev pub starts_thread : Option String → Bool
starts_thread none = true
starts_thread (some root) = str_eq root ""

unfoldable pub insert_thread : MessageInput → String → Command Unit
insert_thread input root = modify λ w. record w {
  db = record w.db {
    threads =
        w.threads
        ++ record {
          root_message_id = root;
          project_id = input.project_id;
          channel_id = input.channel_id;
          cursor = 0;
        }
          ∷ [];
  };
}

-- The Thread of a first message, or the Thread that a reply names.
unfoldable pub open_thread : MessageInput → String → Command Unit
open_thread input root = if starts_thread input.thread_root_id then insert_thread input root else do
  thread ← require_thread root
  check (str_eq thread.project_id input.project_id && str_eq thread.channel_id input.channel_id)
      (kernel_error forbidden)

abbrev pub new_message : MessageInput → String → String → ℕ → ℕ → Message
new_message input id root sequence at = record {
  id = id;
  project_id = input.project_id;
  channel_id = input.channel_id;
  thread_root_id = root;
  reply_to_message_id = input.reply_to_message_id;
  author_principal_id = input.author.id;
  author_agent_id = input.author_agent_id;
  caused_by_attention_id = input.caused_by_attention_id;
  caused_by_run_id = input.caused_by_run_id;
  thread_sequence = sequence;
  latest_revision = 1;
  created_at = at;
}

abbrev pub new_revision : String → String → ℕ → String → Bool → ℕ → MessageRevision
new_revision id message_id revision body tombstone at = record {
  id = id;
  message_id = message_id;
  revision = revision;
  body = body;
  tombstone = tombstone;
  created_at = at;
}

unfoldable pub insert_message : MessageInput → String → String → String → ℕ → ℕ → Command Unit
insert_message input message_id root revision_id sequence at = modify λ w. record w {
  db = record w.db {
    messages = w.messages ++ new_message input message_id root sequence at ∷ [];
    message_revisions =
        w.message_revisions
        ++ new_revision revision_id message_id 1 (trim input.body) false at ∷ [];
  };
}

abbrev pub new_attention : MessageInput → String → String → String → String → Attention
new_attention input id root revision_id target = record {
  id = id;
  target_agent_id = target;
  project_id = input.project_id;
  channel_id = input.channel_id;
  thread_root_id = root;
  message_revision_id = revision_id;
  status = open_attention;
  revision = 1;
  handler_lease_holder_principal_id = none;
  handler_lease_token = none;
  handler_lease_expires_at = none;
  resolution_outcome = none;
  resolved_by_principal_id = none;
  resolved_activation_id = none;
  resolved_run_id = none;
  resolved_at = none;
}

unfoldable pub open_attention_for : MessageInput → String → String → String → Command Unit
open_attention_for input root revision_id target = do
  id ← fresh "attention"
  modify λ w. record w {
    db = record w.db {
      attentions = w.attentions ++ new_attention input id root revision_id target ∷ [];
    };
  }
  sequence ←
      emit_event
        (record {
          type = "AttentionOpened";
          project_id = input.project_id;
          channel_id = input.channel_id;
          thread_root_id = root;
          entity_type = "Attention";
          entity_id = id;
          actor_principal_id = input.author.id;
          activation_id = input.activation_id;
          causation_id = some revision_id;
          correlation_id = input.correlation_id;
          payload =
              object (
                field "targetAgentId" (string target) (field "triggerKind" (string "Mention") end));
        })
        none
  record_attention_history id sequence

-- neither the author nor suppressed
abbrev pub opens_attention : MessageInput → String → Bool
opens_attention input target =
    not (is_text input.author_agent_id target)
    && not (any_row (str_eq target) input.suppressed_attention_agent_ids)

unfoldable pub mention : MessageInput → String → String → ℕ → String → Command Unit
mention input root revision_id at target = do
  agent ← require_agent target
  check (str_eq agent.project_id input.project_id) (kernel_error forbidden)
  id ← fresh "mention"
  modify λ w. record w {
    db = record w.db {
      mentions =
          w.mentions
          ++ record {
            id = id;
            message_revision_id = revision_id;
            target_agent_id = target;
            created_at = at;
          }
            ∷ [];
    };
  }
  if opens_attention input target then open_attention_for input root revision_id target else pure tt

-- `causedByRunId ?? causedByAttentionId ?? null`
abbrev pub cause_of : Option String → Option String → Option String
cause_of none attention = attention
cause_of (some run) attention = some run

unfoldable pub create_message : MessageInput → Command Created
create_message input = do
  require_non_empty input.body
  assert_project_channel input.project_id input.channel_id
  message_id ← fresh "message"
  revision_id ← fresh "message_revision"
  at ← now
  open_thread input (root_or input.thread_root_id message_id)
  thread ← require_thread (root_or input.thread_root_id message_id)
  insert_message input message_id (root_or input.thread_root_id message_id) revision_id
      (thread.cursor + 1) at
  for_each (mention input (root_or input.thread_root_id message_id) revision_id at)
      (unique input.target_agent_ids)
  cursor ← emit_thread_event (record {
    type = "MessagePublished";
    project_id = input.project_id;
    channel_id = input.channel_id;
    thread_root_id = root_or input.thread_root_id message_id;
    entity_type = "Message";
    entity_id = message_id;
    actor_principal_id = input.author.id;
    activation_id = input.activation_id;
    causation_id = cause_of input.caused_by_run_id input.caused_by_attention_id;
    correlation_id = input.correlation_id;
    payload = object (
        field "messageRevisionId" (string revision_id) (
          field "targetAgentIds" (array (json_ids (unique input.target_agent_ids)))
            (field "authorAgentId" (json_or_null input.author_agent_id) end)));
  })
  enqueue_outbox "message.published" "Message" message_id (
      object (
        field "messageRevisionId" (string revision_id)
          (field "threadRootId" (string (root_or input.thread_root_id message_id)) end)))
  pure (record {
    message_id = message_id;
    message_revision_id = revision_id;
    thread_cursor = cursor;
  })

-- what a Human writes, in a Thread of its own or in reply
abbrev pub human_input :
    Principal → String → String → Option String → String → List String → String → MessageInput
human_input principal project_id channel_id thread_root_id body targets correlation = record {
  project_id = project_id;
  channel_id = channel_id;
  thread_root_id = thread_root_id;
  reply_to_message_id = thread_root_id;
  author = principal;
  activation_id = none;
  author_agent_id = none;
  caused_by_attention_id = none;
  caused_by_run_id = none;
  body = body;
  target_agent_ids = targets;
  suppressed_attention_agent_ids = [];
  correlation_id = correlation;
}

unfoldable pub start_thread :
    String → String → String → List String → Principal → String → Command CommandResult
start_thread project_id channel_id body targets principal correlation = do
  require_kind principal is_human
  assert_project_channel project_id channel_id
  created ←
      create_message (human_input principal project_id channel_id none body targets correlation)
  pure (record (bare_result created.message_id) {
    revision = some 1;
    thread_cursor = some created.thread_cursor;
  })

unfoldable pub reply_to_thread :
    String
    → Option ℕ
    → String
    → List String
    → Principal
    → Option String
    → String
    → Command CommandResult
reply_to_thread root expected body targets principal context correlation = do
  require_kind principal is_human
  thread ← require_thread root
  check_thread_cursor thread principal context expected
  created ← create_message (
      human_input principal thread.project_id thread.channel_id (some root) body targets
        correlation)
  pure (record (bare_result created.message_id) {
    revision = some 1;
    thread_cursor = some created.thread_cursor;
  })
