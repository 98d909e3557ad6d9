-- ===== src/Kernel/Attentions/Rows.antt =====
-- packages/kernel/src/attentions.ts and invariants.ts: the rows of an Attention, its history, and
-- the Activations that were started for it.
use torsor.Prelude.{
  ℕ, String, Bool, false, Option, none, some, List, [], ◌∷◌, ◌++◌, str_eq, where_rows, update_rows,
  first_row,
}
use torsor.Kernel.Errors.{kernel_error, not_found}
use torsor.Kernel.Action.{pure, gets, modify, or_throw, for_each, ◌>>=◌, ◌>>◌}
use torsor.Kernel.Rows.{Agent, Attention, AttentionHistory, Activation, for_run, for_attention}
use torsor.Kernel.World.{Command}
use torsor.Kernel.Runs.Events.{mark_activation_change}

abbrev pub is_attention : String → Attention → Bool
is_attention id attention = str_eq attention.id id

-- UPDATE attentions SET ... WHERE id = ?
unfoldable pub update_attention : String → (Attention → Attention) → Command Unit
update_attention id change = modify λ w. record w {
  db = record w.db { attentions = update_rows (is_attention id) change w.attentions };
}

abbrev pub is_agent_id : String → Agent → Bool
is_agent_id id agent = str_eq agent.id id

unfoldable pub require_agent : String → Command Agent
require_agent id = do
  found ← gets (λ w. first_row (is_agent_id id) w.agents)
  or_throw found (kernel_error not_found)

-- the row that recordAttentionHistory copies from an Attention
abbrev pub history_of : ℕ → Attention → AttentionHistory
history_of sequence a = record {
  attention_id = a.id;
  event_sequence = sequence;
  status = a.status;
  revision = a.revision;
  handler_lease_holder_principal_id = a.handler_lease_holder_principal_id;
  handler_lease_expires_at = a.handler_lease_expires_at;
  resolution_outcome = a.resolution_outcome;
  resolved_run_id = a.resolved_run_id;
  resolved_at = a.resolved_at;
}

abbrev pub history_rows : ℕ → Option Attention → List AttentionHistory
history_rows sequence none = []
history_rows sequence (some a) = history_of sequence a ∷ []

-- INSERT INTO attention_history ... SELECT ... FROM attentions WHERE id = ?
unfoldable pub record_attention_history : String → ℕ → Command Unit
record_attention_history id sequence = modify λ w. record w {
  db = record w.db {
    attention_history =
        w.attention_history ++ history_rows sequence (first_row (is_attention id) w.attentions);
  };
}

abbrev pub is_for_attention : Activation → String → Bool
is_for_attention activation attention_id = elim activation.cause [
  | for_run id generation ↦ false
  | for_attention id token ↦ str_eq id attention_id
]

-- UPDATE activation_attempts SET ... WHERE ... RETURNING id, and markActivationChanges. The ids of
-- the rows that changed are the answer.
unfoldable pub change_activations :
    (Activation → Bool) → (Activation → Activation) → Command (List Activation)
change_activations test change = do
  changed ← gets (λ w. where_rows test w.activations)
  modify λ w. record w { db = record w.db { activations = update_rows test change w.activations } }
  for_each mark_activation_change changed
  pure changed
