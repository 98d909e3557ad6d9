-- ===== src/Kernel/Runs/Events.antt =====
-- packages/kernel/src/invariants.ts and causal-limits.ts: what a change of a Run writes beside it.
use torsor.Prelude.{
  ℕ, ◌+◌, String, Bool, not, ◌&&◌, Option, none, some, List, [], ◌∷◌, ◌++◌, str_eq, is_none,
  first_row, where_rows, update_rows, any_row, length, if◌then◌else◌,
}
use torsor.Kernel.Errors.{kernel_error, not_found, conflict}
use torsor.Kernel.Action.{pure, gets, modify, or_throw, for_each, ◌>>=◌, ◌>>◌}
use torsor.Kernel.Rows.{
  Json, string, number, Fields, field, end, Run, Thread, Activation, is_terminal_run_state,
}
use torsor.Kernel.World.{Command, now, fresh}
use torsor.Kernel.Activations.Validity.{is_for_run}

-- ThreadEventInput
pub record EventInput : Type 0 where
  pub type : String
  pub project_id : String
  pub channel_id : String
  pub thread_root_id : String
  pub entity_type : String
  pub entity_id : String
  pub actor_principal_id : String
  pub activation_id : Option String
  pub causation_id : Option String
  pub correlation_id : String
  pub payload : Json

abbrev pub is_thread : String → Thread → Bool
is_thread id thread = str_eq thread.root_message_id id

unfoldable pub require_thread : String → Command Thread
require_thread id = do
  found ← gets (λ w. first_row (is_thread id) w.threads)
  or_throw found (kernel_error not_found)

-- The answer is the sequence number of the row.
unfoldable pub emit_event : EventInput → Option ℕ → Command ℕ
emit_event event cursor = do
  id ← fresh "event"
  at ← now
  modify λ w. record w {
    db = record w.db {
      public_events =
          w.public_events
          ++ record {
            event_id = id;
            type = event.type;
            project_id = event.project_id;
            channel_id = event.channel_id;
            thread_root_id = event.thread_root_id;
            thread_cursor = cursor;
            entity_type = event.entity_type;
            entity_id = event.entity_id;
            actor_principal_id = event.actor_principal_id;
            activation_id = event.activation_id;
            causation_id = event.causation_id;
            correlation_id = event.correlation_id;
            payload = event.payload;
            occurred_at = at;
          }
            ∷ [];
    };
  }
  gets (λ w. length w.public_events)

unfoldable pub emit_thread_event : EventInput → Command ℕ
emit_thread_event event = do
  thread ← require_thread event.thread_root_id
  modify λ w. record w {
    db = record w.db {
      threads =
          update_rows (is_thread event.thread_root_id)
            (λ t. record t { cursor = thread.cursor + 1 }) w.threads;
    };
  }
  emit_event event (some (thread.cursor + 1))
  pure (thread.cursor + 1)

abbrev pub is_revocable : String → Activation → Bool
is_revocable run_id a = is_for_run a run_id && is_none a.finished_at && is_none a.revoked_at

-- COALESCE(revocation_reason, ?)
abbrev pub kept_reason : Option String → String → Option String
kept_reason none reason = some reason
kept_reason (some old) reason = some old

abbrev pub revoke_activation : ℕ → String → Activation → Activation
revoke_activation at reason a = record a {
  revoked_at = some at;
  revocation_reason = kept_reason a.revocation_reason reason;
}

-- INSERT OR IGNORE
abbrev pub insert_ignore : List String → String → List String
insert_ignore ids id = if any_row (str_eq id) ids then ids else ids ++ id ∷ []

unfoldable pub mark_activation_change : Activation → Command Unit
mark_activation_change a = modify λ w. record w {
  db = record w.db {
    projection_activation_changes = insert_ignore w.projection_activation_changes a.id;
  };
}

-- The COALESCE of revoked_at keeps nothing, since the WHERE clause asks for revoked_at IS NULL.
unfoldable pub revoke_run_activations : String → String → ℕ → Command Unit
revoke_run_activations run_id reason at = do
  changed ← gets (λ w. where_rows (is_revocable run_id) w.activations)
  modify λ w. record w {
    db = record w.db {
      activations = update_rows (is_revocable run_id) (revoke_activation at reason) w.activations;
    };
  }
  for_each mark_activation_change changed

abbrev pub counts_for : String → Run → Bool
counts_for root run = str_eq run.causal_root_id root && not (is_terminal_run_state run.state)

-- causalCapacity, as the fields that it adds to a payload
unfoldable pub causal_capacity : String → Command Fields
causal_capacity root = do
  found ← gets (λ w. w.causal_limits)
  limits ← or_throw found (kernel_error conflict)
  count ← gets (λ w. length (where_rows (counts_for root) w.runs))
  pure (
      field "causalRootId" (string root) (
        field "maxDepth" (number limits.max_depth) (
          field "maxNonTerminalRunsPerRoot" (number limits.max_non_terminal_runs_per_root)
            (field "nonTerminalRunCount" (number count) end))))
