-- ===== src/Kernel/World.antt =====
-- packages/kernel/src/database.ts: the tables, and what a command reads of its host. A table that
-- is only read by its primary key is a function; any other is the list of its rows in the order of
-- their sequence numbers. The clock and the source of fresh names are sequences of answers, of
-- which nothing is assumed; `fresh` stands for `idFactory` and for the random tokens.
use torsor.Prelude.{ℕ, ◌+◌, String, Option, none, List, []}
use torsor.Kernel.Action.{Action, returned}
use torsor.Kernel.Rows.{
  Principal, Lease, LeaseEvent, PhysicalWorktree, WorktreeExecution, ExecutionEvent, OutboxEvent,
  Agent, Attention, DomainFence, Run, RunInput, Activation, ProviderAttempt, PublicEvent, Thread,
  CausalLimits, RunActivity, AttentionHistory, ActivationRunInput, Message, MessageRevision,
  Project, Channel, Mention,
}

pub record Db : Type 0 where
  pub principals : List Principal
  pub leases : String → Option Lease
  pub lease_events : List LeaseEvent
  pub physical_worktrees : List PhysicalWorktree
  pub worktree_executions : List WorktreeExecution
  pub execution_events : List ExecutionEvent
  pub outbox_events : List OutboxEvent
  pub agents : List Agent
  pub attentions : List Attention
  pub attention_history : List AttentionHistory
  pub fences : List DomainFence
  pub runs : List Run
  pub run_inputs : List RunInput
  pub activations : List Activation
  pub activation_run_inputs : List ActivationRunInput
  pub provider_attempts : List ProviderAttempt
  pub run_activity_events : List RunActivity
  pub public_events : List PublicEvent
  pub threads : List Thread
  pub projects : List Project
  pub channels : List Channel
  pub messages : List Message
  pub mentions : List Mention
  pub message_revisions : List MessageRevision
  pub causal_limits : Option CausalLimits
  pub projection_activation_changes : List String

pub record World : Type 0 where
  pub db : Db
  pub open db use *
  pub clock : ℕ → ℕ
  pub reads : ℕ
  pub names : String → ℕ → String
  pub issued : ℕ
  pub local_worktree_revocations : List String

abbrev pub Command : Type 0 → Type 0
Command A = Action World A

-- kernel.clock(), and db.now(kernel)
unfoldable pub now : Command ℕ
now w = returned (w.clock w.reads) (record w { reads = w.reads + 1 })

-- kernel.idFactory(prefix), and secretToken(prefix)
unfoldable pub fresh : String → Command String
fresh prefix w = returned (w.names prefix w.issued) (record w { issued = w.issued + 1 })

abbrev pub empty_db : Db
empty_db = record {
  principals = [];
  leases = λ id. none;
  lease_events = [];
  physical_worktrees = [];
  worktree_executions = [];
  execution_events = [];
  outbox_events = [];
  agents = [];
  attentions = [];
  attention_history = [];
  fences = [];
  runs = [];
  run_inputs = [];
  activations = [];
  activation_run_inputs = [];
  provider_attempts = [];
  run_activity_events = [];
  public_events = [];
  threads = [];
  projects = [];
  channels = [];
  messages = [];
  mentions = [];
  message_revisions = [];
  causal_limits = none;
  projection_activation_changes = [];
}
