-- ===== src/Kernel/Attentions/Admission.antt =====
-- packages/kernel/src/causal-limits.ts: the admission of a Run, within the limits of its causal root.
use torsor.Prelude.{
  ℕ, ◌+◌, String, Bool, ◌&&◌, Option, none, some, str_eq, is_text, first_row, where_rows, length,
  leb, ltb,
}
use torsor.Kernel.Errors.{kernel_error, conflict, causal_limit_exceeded}
use torsor.Kernel.Action.{pure, check, gets, or_throw, ◌>>=◌, ◌>>◌}
use torsor.Kernel.Rows.{
  Principal, PrincipalKind, is_human, is_agent, Attention, Run, Message, MessageRevision,
}
use torsor.Kernel.World.{Db, Command}
use torsor.Kernel.Activations.Validity.{require_run}
use torsor.Kernel.Runs.Events.{counts_for}

-- The source Message of an Attention, with the kind of its author.
pub record Source : Type 0 where
  pub message : Message
  pub author_kind : PrincipalKind

abbrev pub is_revision : String → MessageRevision → Bool
is_revision id r = str_eq r.id id

abbrev pub is_message : String → Message → Bool
is_message id m = str_eq m.id id

abbrev pub is_principal : String → Principal → Bool
is_principal id p = str_eq p.id id

-- The rows that the two JOINs find. A missing one leaves the query without an answer.
unfoldable pub source_in : String → Db → Option Source
source_in revision_id d = elim (first_row (is_revision revision_id) d.message_revisions) [
  | none ↦ none
  | some r ↦ elim (first_row (is_message r.message_id) d.messages) [
    | none ↦ none
    | some m ↦ elim (first_row (is_principal m.author_principal_id) d.principals) [
      | none ↦ none
      | some p ↦ some (record { message = m; author_kind = p.kind })
    ]
  ]
]

unfoldable pub source_of : String → Command (Option Source)
source_of revision_id = gets λ w. source_in revision_id w.db

pub record Provenance : Type 0 where
  pub causal_root_id : String
  pub parent_run_id : Option String
  pub delegation_depth : ℕ

abbrev pub is_source_of : Run → Attention → Message → Bool
is_source_of parent attention message =
    str_eq parent.project_id attention.project_id
    && str_eq parent.home_channel_id attention.channel_id
    && str_eq parent.thread_root_id attention.thread_root_id
    && is_text message.author_agent_id parent.owner_agent_id

-- the three branches on the author and on the parent Run
unfoldable pub provenance_of : Attention → Source → Option String → Command Provenance
provenance_of attention source none = do
  check (is_human source.author_kind) (kernel_error conflict)
  pure (record { causal_root_id = source.message.id; parent_run_id = none; delegation_depth = 0 })
provenance_of attention source (some parent_id) = do
  check (is_agent source.author_kind) (kernel_error conflict)
  parent ← require_run parent_id
  check (is_source_of parent attention source.message) (kernel_error conflict)
  pure (record {
    causal_root_id = parent.causal_root_id;
    parent_run_id = some parent_id;
    delegation_depth = parent.delegation_depth + 1;
  })

-- causalCapacity, and the provenance, of the Run to come
pub record Admission : Type 0 where
  pub provenance : Provenance
  pub open provenance use *
  pub max_depth : ℕ
  pub max_non_terminal_runs_per_root : ℕ
  pub non_terminal_run_count : ℕ

unfoldable pub admit_run_from_attention : Attention → Command Admission
admit_run_from_attention attention = do
  found ← source_of attention.message_revision_id
  source ← or_throw found (kernel_error conflict)
  provenance ← provenance_of attention source source.message.caused_by_run_id
  limited ← gets (λ w. w.causal_limits)
  limits ← or_throw limited (kernel_error conflict)
  count ← gets (λ w. length (where_rows (counts_for provenance.causal_root_id) w.runs))
  check (leb provenance.delegation_depth limits.max_depth) (kernel_error causal_limit_exceeded)
  check (ltb count limits.max_non_terminal_runs_per_root) (kernel_error causal_limit_exceeded)
  pure (record {
    provenance = provenance;
    max_depth = limits.max_depth;
    max_non_terminal_runs_per_root = limits.max_non_terminal_runs_per_root;
    non_terminal_run_count = count + 1;
  })
