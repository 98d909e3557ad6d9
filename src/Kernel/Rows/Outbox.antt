-- ===== src/Kernel/Rows/Outbox.antt =====
-- packages/kernel/src/schema.ts: outbox_events, with the JSON values of payload_json.
use torsor.Prelude.{ℕ, String, Bool, Option, none, some, str_eq, if◌then◌else◌}

-- JSON values as far as payloads use them; numbers are natural.
mutual
  pub data Json : Type 0 where
    null : Json
    bool : Bool → Json
    number : ℕ → Json
    string : String → Json
    array : Items → Json
    object : Fields → Json

  pub data Items : Type 0 where
    nil : Items
    item : Json → Items → Items

  pub data Fields : Type 0 where
    end : Fields
    field : String → Json → Fields → Fields

unfoldable pub get_field : String → Fields → Option Json
get_field name end = none
get_field name (field key value rest) = if str_eq key name then some value else get_field name rest

-- A row of outbox_events.
pub record OutboxEvent : Type 0 where
  pub sequence : ℕ
  pub id : String
  pub topic : String
  pub aggregate_type : String
  pub aggregate_id : String
  pub payload : Json
  pub delivery_attempts : ℕ
  pub lease_holder_principal_id : Option String
  pub lease_token : Option String
  pub lease_expires_at : Option ℕ
  pub created_at : ℕ
  pub acknowledged_at : Option ℕ
  pub acknowledged_by_principal_id : Option String
