-- ===== src/Kernel/Rows/Worktree.antt =====
-- packages/kernel/src/schema.ts: principals, writer leases, physical Worktrees and executions.
use torsor.Prelude.{ℕ, String, Bool, true, false, Option}

pub data PrincipalKind : Type 0 where
  human agent runtime : PrincipalKind

pub record Principal : Type 0 where
  pub id : String
  pub kind : PrincipalKind

abbrev pub is_runtime : PrincipalKind → Bool
is_runtime runtime = true
is_runtime _ = false

abbrev pub is_agent : PrincipalKind → Bool
is_agent agent = true
is_agent _ = false

abbrev pub is_human : PrincipalKind → Bool
is_human human = true
is_human _ = false

pub data LeaseStatus : Type 0 where
  active released expired quarantined : LeaseStatus

abbrev pub is_active : LeaseStatus → Bool
is_active active = true
is_active _ = false

abbrev pub is_expired : LeaseStatus → Bool
is_expired expired = true
is_expired _ = false

abbrev pub is_quarantined : LeaseStatus → Bool
is_quarantined quarantined = true
is_quarantined _ = false

-- A row of worktree_writer_leases.
pub record Lease : Type 0 where
  pub worktree_id : String
  pub revision : ℕ
  pub generation : ℕ
  pub fencing_token : ℕ
  pub status : LeaseStatus
  pub holder_principal_id : Option String
  pub lease_token : Option String
  pub acquired_at : Option ℕ
  pub renewed_at : Option ℕ
  pub expires_at : Option ℕ
  pub released_at : Option ℕ
  pub quarantine_reason : Option String
  pub quarantine_token : Option String
  pub quarantine_evidence : Option String
  pub quarantined_at : Option ℕ
  pub quarantine_resolved_at : Option ℕ
  pub quarantine_resolution : Option String
  pub updated_at : ℕ

pub data LeaseEventType : Type 0 where
  lease_acquired lease_renewed lease_released : LeaseEventType
  lease_expired lease_quarantined quarantine_resolved : LeaseEventType

-- A row of worktree_writer_lease_events; its sequence number is its place in the table.
pub record LeaseEvent : Type 0 where
  pub id : String
  pub worktree_id : String
  pub type : LeaseEventType
  pub revision : ℕ
  pub generation : ℕ
  pub fencing_token : ℕ
  pub actor_principal_id : String
  pub holder_principal_id : Option String
  pub expires_at : Option ℕ
  pub reason : Option String
  pub evidence : Option String
  pub correlation_id : String
  pub occurred_at : ℕ

pub data WorktreeState : Type 0 where
  ready unsafe : WorktreeState

abbrev pub is_ready : WorktreeState → Bool
is_ready ready = true
is_ready unsafe = false

-- A row of physical_worktrees; `unsafe` is the state 'Quarantined'.
pub record PhysicalWorktree : Type 0 where
  pub worktree_id : String
  pub run_id : String
  pub repository_id : String
  pub repository_path : String
  pub base_revision : String
  pub directory_path : String
  pub directory_identity : String
  pub state : WorktreeState
  pub created_at : ℕ

pub data ExecutionState : Type 0 where
  starting running stop_requested stop_confirmed force_terminated uncertain : ExecutionState

-- isStopped, and the states that the unique index worktree_unsettled_execution_idx leaves out
abbrev pub is_stopped : ExecutionState → Bool
is_stopped stop_confirmed = true
is_stopped force_terminated = true
is_stopped _ = false

pub data PermissionMode : Type 0 where
  provider_default allow_all : PermissionMode

pub data Operation : Type 0 where
  write_probe : Operation
  native_provider : String → PermissionMode → Operation

-- A row of worktree_executions. `operation` joins the columns operation, provider_attempt_id,
-- provider_policy and permission_mode, as their CHECK does; `authority_revoked` joins
-- authority_revoked_at and authority_revocation_reason.
pub record WorktreeExecution : Type 0 where
  pub id : String
  pub worktree_id : String
  pub activation_id : String
  pub runtime_principal_id : String
  pub executor_id : String
  pub execution_token : String
  pub generation : ℕ
  pub fencing_token : ℕ
  pub operation : Operation
  pub state : ExecutionState
  pub pid : Option ℕ
  pub authority_revoked : Option (ℕ × String)
  pub created_at : ℕ

-- A row of worktree_execution_events.
pub record ExecutionEvent : Type 0 where
  pub execution_id : String
  pub state : ExecutionState
  pub evidence : String
  pub occurred_at : ℕ
