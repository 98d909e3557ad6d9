-- ===== src/Kernel/Outbox/CachedClaim.antt =====
-- packages/kernel/src/outbox.ts: the answer to a repeated claim.
use torsor.Prelude.{
  ℕ, ◌+◌, String, Bool, false, not, ◌&&◌, Option, none, some, List, [], ◌∷◌, map, length, take,
  is_none, is_text, str_eq, ◌==◌, first_row, all_rows, any_row, if◌then◌else◌,
}
use torsor.Kernel.Errors.{KernelError, kernel_error, conflict, internal}
use torsor.Kernel.Action.{pure, gets, check, or_throw, for_each, ◌>>=◌, ◌>>◌}
use torsor.Kernel.Values.{bounded_duration}
use torsor.Kernel.Rows.{Principal, OutboxEvent}
use torsor.Kernel.World.{Command, now, fresh}
use torsor.Kernel.Results.{CommandResult, OutboxEventView, map_outbox_event}
use torsor.Kernel.Outbox.Rows.{
  pending, is_pending_event, is_live_at, has_id, ids_of, same_ids, update_event, lease_event,
  view_events,
}

abbrev pub stale_cached_claim : KernelError
stale_cached_claim = kernel_error conflict

abbrev pub view_ids : List OutboxEventView → List String
view_ids [] = []
view_ids (v ∷ vs) = v.id ∷ view_ids vs

-- the rows of the ids, unless one is missing or acknowledged
unfoldable pub pending_rows : List OutboxEvent → List String → Option (List OutboxEvent)
pending_rows events [] = some []
pending_rows events (id ∷ ids) = add (first_row (has_id id) events) (pending_rows events ids)
  where
    add : Option OutboxEvent → Option (List OutboxEvent) → Option (List OutboxEvent)
    add none rest = none
    add (some e) none = none
    add (some e) (some es) = if is_pending_event e then some (e ∷ es) else none

abbrev pub is_held_by : String → String → OutboxEvent → Bool
is_held_by holder token e =
    is_text e.lease_holder_principal_id holder && is_text e.lease_token token

abbrev pub first_expiry : List OutboxEvent → Option ℕ
first_expiry [] = none
first_expiry (e ∷ es) = e.lease_expires_at

abbrev pub same_expiry : Option ℕ → OutboxEvent → Bool
same_expiry none e = is_none e.lease_expires_at
same_expiry (some expiry) e = is_at expiry e.lease_expires_at
  where
    is_at : ℕ → Option ℕ → Bool
    is_at n none = false
    is_at n (some m) = m == n

-- The lease of the cached result is still live: its events as they are now.
unfoldable pub repeat_live_claim : CommandResult → List OutboxEvent → Command CommandResult
repeat_live_claim result rows = do
  check (all_rows (same_expiry (first_expiry rows)) rows) (kernel_error internal)
  pure (record result {
    lease_expires_at = first_expiry rows;
    outbox_events = some (map map_outbox_event rows);
  })

-- It has run out: a new lease on the same events, if they are still the front of the queue.
unfoldable pub renew_claim :
    ℕ
    → CommandResult
    → Principal
    → String
    → List String
    → List OutboxEvent
    → ℕ
    → Command CommandResult
renew_claim duration_ms result principal token ids rows at = do
  check (all_rows (is_held_by principal.id token) rows) stale_cached_claim
  check (not (any_row (λ e. is_live_at e.lease_expires_at at) rows)) stale_cached_claim
  frontier ← gets (λ w. take (length ids) (pending w.outbox_events))
  check (same_ids (ids_of frontier) ids) stale_cached_claim
  duration ← bounded_duration duration_ms
  new_token ← fresh "outbox_lease"
  for_each (update_event (lease_event principal.id new_token (at + duration))) ids
  views ← view_events ids
  pure (record result {
    entity_id = new_token;
    lease_token = some new_token;
    lease_expires_at = some (at + duration);
    outbox_events = some views;
  })

unfoldable pub resolve_claim_of :
    ℕ → CommandResult → Principal → String → List String → Command CommandResult
resolve_claim_of duration_ms result principal token ids = do
  at ← now
  found ← gets (λ w. pending_rows w.outbox_events ids)
  rows ← or_throw found stale_cached_claim
  if all_rows (λ e. is_held_by principal.id token e && is_live_at e.lease_expires_at at) rows
      then repeat_live_claim result rows
      else renew_claim duration_ms result principal token ids rows at

abbrev pub resolve_views :
    ℕ → CommandResult → Principal → String → Option (List OutboxEventView) → Command CommandResult
resolve_views duration_ms result principal token none = pure result
resolve_views duration_ms result principal token (some []) = pure result
resolve_views duration_ms result principal token (some (v ∷ vs)) =
    resolve_claim_of duration_ms result principal token (v.id ∷ view_ids vs)

abbrev pub resolve_token : ℕ → CommandResult → Principal → Option String → Command CommandResult
resolve_token duration_ms result principal none = pure result
resolve_token duration_ms result principal (some token) =
    if str_eq token ""
    then pure result
    else resolve_views duration_ms result principal token result.outbox_events

unfoldable pub resolve_cached_outbox_claim : ℕ → CommandResult → Principal → Command CommandResult
resolve_cached_outbox_claim lease_duration_ms result principal =
    resolve_token lease_duration_ms result principal result.lease_token
