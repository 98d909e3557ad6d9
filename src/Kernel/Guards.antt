-- ===== src/Kernel/Guards.antt =====
-- packages/kernel/src/invariants.ts: the checks that commands share.
use torsor.Prelude.{String, Bool, str_eq, first_row}
use torsor.Kernel.Errors.{kernel_error, forbidden, not_found}
use torsor.Kernel.Action.{check, gets, or_throw, ◌>>=◌}
use torsor.Kernel.Rows.{Principal, PrincipalKind, OutboxEvent}
use torsor.Kernel.World.{Command}

-- requireKind, the kind being given by its test
unfoldable pub require_kind : Principal → (PrincipalKind → Bool) → Command Unit
require_kind principal is_kind = check (is_kind principal.kind) (kernel_error forbidden)

unfoldable pub require_outbox_event : String → Command OutboxEvent
require_outbox_event id = do
  found ← gets (λ w. first_row (λ e. str_eq e.id id) w.outbox_events)
  or_throw found (kernel_error not_found)
