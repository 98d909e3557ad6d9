-- ===== src/Kernel/Rows/Messages.antt =====
-- packages/kernel/src/schema.ts: projects, channels, messages, their revisions and mentions.
use torsor.Prelude.{ℕ, String, Bool, Option}

-- A row of projects.
pub record Project : Type 0 where
  pub id : String
  pub name : String

-- A row of channels.
pub record Channel : Type 0 where
  pub id : String
  pub project_id : String
  pub name : String

-- A row of mentions.
pub record Mention : Type 0 where
  pub id : String
  pub message_revision_id : String
  pub target_agent_id : String
  pub created_at : ℕ

-- A row of messages.
pub record Message : Type 0 where
  pub id : String
  pub project_id : String
  pub channel_id : String
  pub thread_root_id : String
  pub reply_to_message_id : Option String
  pub author_principal_id : String
  pub author_agent_id : Option String
  pub caused_by_attention_id : Option String
  pub caused_by_run_id : Option String
  pub thread_sequence : ℕ
  pub latest_revision : ℕ
  pub created_at : ℕ

-- A row of message_revisions.
pub record MessageRevision : Type 0 where
  pub id : String
  pub message_id : String
  pub revision : ℕ
  pub body : String
  pub tombstone : Bool
  pub created_at : ℕ
