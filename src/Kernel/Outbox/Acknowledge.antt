-- ===== src/Kernel/Outbox/Acknowledge.antt =====
-- packages/kernel/src/outbox.ts: acknowledgeOutboxEvents.
use torsor.Prelude.{
  ℕ, String, Bool, true, false, not, ◌&&◌, none, some, List, [], ◌∷◌, take, length, where_rows,
  str_eq, is_none, is_text, ◌==◌,
}
use torsor.Kernel.Errors.{kernel_error, invalid_command, conflict}
use torsor.Kernel.Action.{pure, gets, check, for_each, ◌>>=◌, ◌>>◌}
use torsor.Kernel.Values.{require_non_empty, unique}
use torsor.Kernel.Rows.{Principal, OutboxEvent, is_runtime}
use torsor.Kernel.World.{Command, now}
use torsor.Kernel.Results.{CommandResult, bare_result}
use torsor.Kernel.Guards.{require_kind, require_outbox_event}
use torsor.Kernel.Outbox.Rows.{pending, is_live_at, is_leased_by, same_ids, update_event, ids_of}

-- two lists of rows with the same ids and sequence numbers, element by element
unfoldable pub same_rows : List OutboxEvent → List OutboxEvent → Bool
same_rows [] [] = true
same_rows [] (y ∷ ys) = false
same_rows (x ∷ xs) [] = false
same_rows (x ∷ xs) (y ∷ ys) = str_eq x.id y.id && x.sequence == y.sequence && same_rows xs ys

unfoldable pub require_events : List String → Command (List OutboxEvent)
require_events [] = pure []
require_events (id ∷ ids) = do e ← require_outbox_event id; es ← require_events ids; pure (e ∷ es)

-- the event is not acknowledged, and held by the lease, which is live now
unfoldable pub require_live_lease : String → String → OutboxEvent → Command Unit
require_live_lease holder token e = do
  check (is_none e.acknowledged_at) (kernel_error conflict)
  check
      (is_text e.lease_holder_principal_id holder
        && is_text e.lease_token token
        && not (is_none e.lease_expires_at))
      (kernel_error conflict)
  at ← now
  check (is_live_at e.lease_expires_at at) (kernel_error conflict)

abbrev pub acknowledge_event : String → ℕ → OutboxEvent → OutboxEvent
acknowledge_event by at e = record e {
  acknowledged_at = some at;
  acknowledged_by_principal_id = some by;
  lease_holder_principal_id = none;
  lease_token = none;
  lease_expires_at = none;
}

abbrev pub is_empty : List String → Bool
is_empty [] = true
is_empty (x ∷ xs) = false

-- The part of the command after the checks of its arguments.
unfoldable pub acknowledge_at : List String → String → Principal → ℕ → Command CommandResult
acknowledge_at ids lease_token principal at = do
  leased ← gets (λ w. where_rows (is_leased_by principal.id lease_token) w.outbox_events)
  check (same_ids (ids_of leased) ids) (kernel_error invalid_command)
  prefix ← gets (λ w. take (length leased) (pending w.outbox_events))
  check (same_rows prefix leased) (kernel_error conflict)
  events ← require_events ids
  for_each (require_live_lease principal.id lease_token) events
  for_each (update_event (acknowledge_event principal.id at)) (ids_of events)
  pure (bare_result lease_token)

unfoldable pub acknowledge_outbox_events : List String → String → Principal → Command CommandResult
acknowledge_outbox_events outbox_event_ids lease_token principal = do
  require_kind principal is_runtime
  check (not (is_empty outbox_event_ids)) (kernel_error invalid_command)
  let ids = unique outbox_event_ids
  check (length ids == length outbox_event_ids) (kernel_error invalid_command)
  require_non_empty lease_token
  at ← now
  acknowledge_at ids lease_token principal at
