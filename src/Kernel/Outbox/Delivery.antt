-- ===== src/Kernel/Outbox/Delivery.antt =====
-- packages/kernel/src/outbox.ts: the authority to deliver the event at the front of the queue.
use torsor.Prelude.{
  ℕ, String, Bool, false, ◌&&◌, ◌||◌, Option, none, some, List, [], ◌∷◌, str_eq, where_rows,
  first_row, any_row,
}
use torsor.Kernel.Errors.{kernel_error, conflict}
use torsor.Kernel.Action.{pure, gets, check, or_throw, ◌>>=◌, ◌>>◌}
use torsor.Kernel.Values.{require_non_empty}
use torsor.Kernel.Rows.{
  Principal, OutboxEvent, RunInput, Json, object, string, get_field, is_pending, is_runtime,
}
use torsor.Kernel.World.{Command, now}
use torsor.Kernel.Guards.{require_kind, require_outbox_event}
use torsor.Kernel.Outbox.Rows.{pending, is_leased_by, is_live_at}

-- OutboxAuthorityCommand
pub record OutboxAuthority : Type 0 where
  pub outbox_event_id : Option String
  pub outbox_lease_token : Option String

pub record DeliveryAuthority : Type 0 where
  pub lease_expires_at : ℕ
  pub observed_at : ℕ
  pub run_input_id : String

-- `value ?? ""`
abbrev pub or_empty : Option String → String
or_empty none = ""
or_empty (some value) = value

-- exactly one row, with this id
abbrev pub is_only : String → List OutboxEvent → Bool
is_only id [] = false
is_only id (e ∷ []) = str_eq e.id id
is_only id (e ∷ f ∷ es) = false

-- a first row, with this id
abbrev pub is_first : String → List OutboxEvent → Bool
is_first id [] = false
is_first id (e ∷ es) = str_eq e.id id

abbrev pub string_value : Option Json → Option String
string_value (some (string s)) = some s
string_value _ = none

-- the field runInputId of an object, where it is a string
abbrev pub payload_run_input : Json → Option String
payload_run_input (object fields) = string_value (get_field "runInputId" fields)
payload_run_input _ = none

abbrev pub is_run_topic : String → Bool
is_run_topic topic = str_eq topic "run.activation-requested" || str_eq topic "run-input.available"

unfoldable pub require_outbox_delivery_authority :
    OutboxAuthority → Principal → String → Command DeliveryAuthority
require_outbox_delivery_authority c principal run_id = do
  require_kind principal is_runtime
  require_non_empty (or_empty c.outbox_event_id)
  require_non_empty (or_empty c.outbox_lease_token)
  event ← require_outbox_event (or_empty c.outbox_event_id)
  observed ← now
  check
      (is_leased_by principal.id (or_empty c.outbox_lease_token) event
        && is_live_at event.lease_expires_at observed)
      (kernel_error conflict)
  check
      (str_eq event.aggregate_type "Run"
        && str_eq event.aggregate_id run_id
        && is_run_topic event.topic)
      (kernel_error conflict)
  leased ←
      gets (λ w.
        where_rows (is_leased_by principal.id (or_empty c.outbox_lease_token)) w.outbox_events)
  check (is_only (or_empty c.outbox_event_id) leased) (kernel_error conflict)
  frontier ← gets (λ w. pending w.outbox_events)
  check (is_first (or_empty c.outbox_event_id) frontier) (kernel_error conflict)
  run_input_id ← or_throw (payload_run_input event.payload) (kernel_error conflict)
  expiry ← or_throw event.lease_expires_at (kernel_error conflict)
  pure (record { lease_expires_at = expiry; observed_at = observed; run_input_id = run_input_id })

abbrev pub awaits : String → Option RunInput → Bool
awaits run_id none = false
awaits run_id (some input) = str_eq input.run_id run_id && is_pending input.disposition

unfoldable pub require_outbox_activation_authority :
    OutboxAuthority → Principal → String → Command DeliveryAuthority
require_outbox_activation_authority c principal run_id = do
  authority ← require_outbox_delivery_authority c principal run_id
  input ← gets (λ w. first_row (λ i. str_eq i.id authority.run_input_id) w.run_inputs)
  check (awaits run_id input) (kernel_error conflict)
  pure authority

unfoldable pub require_outbox_provider_authority :
    OutboxAuthority → Principal → String → List String → Command DeliveryAuthority
require_outbox_provider_authority c principal run_id run_input_ids = do
  authority ← require_outbox_delivery_authority c principal run_id
  check (any_row (str_eq authority.run_input_id) run_input_ids) (kernel_error conflict)
  pure authority
