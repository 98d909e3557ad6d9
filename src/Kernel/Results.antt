-- ===== src/Kernel/Results.antt =====
-- CommandResult of packages/kernel/src/types.ts, with the views of packages/kernel/src/mappings.ts
-- that it carries. Of `relatedIds` only the handler lease token is kept: the others repeat ids of the
-- command and its rows.
use torsor.Prelude.{ℕ, String, Option, none, List}
use torsor.Kernel.Rows.{Lease, LeaseStatus, OutboxEvent, Json}

-- WorktreeWriterLeaseView: the row without its two secret tokens.
pub record LeaseView : Type 0 where
  pub worktree_id : String
  pub revision : ℕ
  pub generation : ℕ
  pub fencing_token : ℕ
  pub status : LeaseStatus
  pub holder_principal_id : Option String
  pub acquired_at : Option ℕ
  pub renewed_at : Option ℕ
  pub expires_at : Option ℕ
  pub released_at : Option ℕ
  pub quarantine_reason : Option String
  pub quarantine_evidence : Option String
  pub quarantined_at : Option ℕ
  pub quarantine_resolved_at : Option ℕ
  pub quarantine_resolution : Option String
  pub updated_at : ℕ

abbrev pub map_lease : Lease → LeaseView
map_lease row = record {
  worktree_id = row.worktree_id;
  revision = row.revision;
  generation = row.generation;
  fencing_token = row.fencing_token;
  status = row.status;
  holder_principal_id = row.holder_principal_id;
  acquired_at = row.acquired_at;
  renewed_at = row.renewed_at;
  expires_at = row.expires_at;
  released_at = row.released_at;
  quarantine_reason = row.quarantine_reason;
  quarantine_evidence = row.quarantine_evidence;
  quarantined_at = row.quarantined_at;
  quarantine_resolved_at = row.quarantine_resolved_at;
  quarantine_resolution = row.quarantine_resolution;
  updated_at = row.updated_at;
}

-- OutboxEventView: the row without its lease token and the principal that acknowledged it.
pub record OutboxEventView : Type 0 where
  pub cursor : ℕ
  pub id : String
  pub topic : String
  pub aggregate_type : String
  pub aggregate_id : String
  pub payload : Json
  pub delivery_attempts : ℕ
  pub lease_holder_principal_id : Option String
  pub lease_expires_at : Option ℕ
  pub acknowledged_at : Option ℕ
  pub created_at : ℕ

abbrev pub map_outbox_event : OutboxEvent → OutboxEventView
map_outbox_event row = record {
  cursor = row.sequence;
  id = row.id;
  topic = row.topic;
  aggregate_type = row.aggregate_type;
  aggregate_id = row.aggregate_id;
  payload = row.payload;
  delivery_attempts = row.delivery_attempts;
  lease_holder_principal_id = row.lease_holder_principal_id;
  lease_expires_at = row.lease_expires_at;
  acknowledged_at = row.acknowledged_at;
  created_at = row.created_at;
}

pub record CommandResult : Type 0 where
  pub entity_id : String
  pub revision : Option ℕ
  pub lease_token : Option String
  pub lease_expires_at : Option ℕ
  pub authority_observed_at : Option ℕ
  pub lease_generation : Option ℕ
  pub fencing_token : Option ℕ
  pub quarantine_token : Option String
  pub execution_token : Option String
  pub handler_lease_token : Option String
  pub worktree_writer_lease : Option LeaseView
  pub outbox_events : Option (List OutboxEventView)
  pub thread_cursor : Option ℕ

abbrev pub bare_result : String → CommandResult
bare_result id = record {
  entity_id = id;
  revision = none;
  lease_token = none;
  lease_expires_at = none;
  authority_observed_at = none;
  lease_generation = none;
  fencing_token = none;
  quarantine_token = none;
  execution_token = none;
  handler_lease_token = none;
  worktree_writer_lease = none;
  outbox_events = none;
  thread_cursor = none;
}
