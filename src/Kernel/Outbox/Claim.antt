-- ===== src/Kernel/Outbox/Claim.antt =====
-- packages/kernel/src/outbox.ts: claimOutboxEvents.
use torsor.Prelude.{ℕ, ◌+◌, String, Option, none, some, List, [], ◌∷◌, take, if◌then◌else◌}
use torsor.Kernel.Action.{pure, gets, for_each, ◌>>=◌, ◌>>◌}
use torsor.Kernel.Values.{bounded_limit, bounded_duration}
use torsor.Kernel.Rows.{Principal, OutboxEvent, is_runtime}
use torsor.Kernel.World.{Command, now, fresh}
use torsor.Kernel.Results.{CommandResult, OutboxEventView, bare_result}
use torsor.Kernel.Guards.{require_kind}
use torsor.Kernel.Outbox.Rows.{pending, is_live_at, update_event, lease_event, ids_of, view_events}

-- The loop that stops at the first candidate with a live lease.
unfoldable pub claimable : ℕ → List OutboxEvent → List OutboxEvent
claimable at [] = []
claimable at (e ∷ es) = if is_live_at e.lease_expires_at at then [] else e ∷ claimable at es

abbrev pub limit_or_default : Option ℕ → ℕ
limit_or_default none = 100
limit_or_default (some limit) = limit

-- `events.length > 0 ? { leaseExpiresAt } : {}`
abbrev pub expiry_if_any : ℕ → List OutboxEventView → Option ℕ
expiry_if_any expiry [] = none
expiry_if_any expiry (v ∷ vs) = some expiry

abbrev pub claim_result : String → ℕ → List OutboxEventView → CommandResult
claim_result token expiry views = record (bare_result token) {
  lease_token = some token;
  lease_expires_at = expiry_if_any expiry views;
  outbox_events = some views;
}

-- The part of the command after the checks of its arguments.
unfoldable pub claim_at : ℕ → ℕ → Principal → ℕ → String → Command CommandResult
claim_at count duration principal at token = do
  candidates ← gets (λ w. take count (pending w.outbox_events))
  let ids = ids_of (claimable at candidates)
  for_each (update_event (lease_event principal.id token (at + duration))) ids
  views ← view_events ids
  pure (claim_result token (at + duration) views)

unfoldable pub claim_outbox_events : Option ℕ → ℕ → Principal → Command CommandResult
claim_outbox_events limit lease_duration_ms principal = do
  require_kind principal is_runtime
  count ← bounded_limit (limit_or_default limit)
  duration ← bounded_duration lease_duration_ms
  at ← now
  token ← fresh "outbox_lease"
  claim_at count duration principal at token
