-- ===== src/Kernel/Outbox/Rows.antt =====
-- packages/kernel/src/outbox.ts: the queries and updates of outbox_events.
use torsor.Prelude.{
  ℕ, ◌+◌, String, Bool, true, false, not, ◌&&◌, Option, none, some, List, [], ◌∷◌, ◌++◌, length,
  leb, str_eq, is_none, is_text, where_rows, update_rows,
}
use torsor.Kernel.Action.{modify, pure, ◌>>=◌}
use torsor.Kernel.Rows.{OutboxEvent, Json}
use torsor.Kernel.World.{Command, now, fresh}
use torsor.Kernel.Results.{OutboxEventView, map_outbox_event}
use torsor.Kernel.Guards.{require_outbox_event}

-- acknowledged_at IS NULL
abbrev pub is_pending_event : OutboxEvent → Bool
is_pending_event e = is_none e.acknowledged_at

-- SELECT ... WHERE acknowledged_at IS NULL ORDER BY sequence
abbrev pub pending : List OutboxEvent → List OutboxEvent
pending events = where_rows is_pending_event events

-- `expiry !== null && new Date(expiry) > at`
abbrev pub is_live_at : Option ℕ → ℕ → Bool
is_live_at none at = false
is_live_at (some expiry) at = not (leb expiry at)

abbrev pub has_id : String → OutboxEvent → Bool
has_id id e = str_eq e.id id

-- UPDATE outbox_events SET ... WHERE id = ?
unfoldable pub update_event : (OutboxEvent → OutboxEvent) → String → Command Unit
update_event change id = modify λ w. record w {
  db = record w.db { outbox_events = update_rows (has_id id) change w.outbox_events };
}

abbrev pub lease_event : String → String → ℕ → OutboxEvent → OutboxEvent
lease_event holder token expiry e = record e {
  lease_holder_principal_id = some holder;
  lease_token = some token;
  lease_expires_at = some expiry;
  delivery_attempts = e.delivery_attempts + 1;
}

abbrev pub ids_of : List OutboxEvent → List String
ids_of [] = []
ids_of (e ∷ es) = e.id ∷ ids_of es

-- ids.map((id) => mapOutboxEvent(requireOutboxEvent(kernel, id)))
unfoldable pub view_events : List String → Command (List OutboxEventView)
view_events [] = pure []
view_events (id ∷ ids) = do
  e ← require_outbox_event id
  views ← view_events ids
  pure (map_outbox_event e ∷ views)

-- WHERE acknowledged_at IS NULL AND lease_holder_principal_id = ? AND lease_token = ?
abbrev pub is_leased_by : String → String → OutboxEvent → Bool
is_leased_by holder token e =
    is_pending_event e && is_text e.lease_holder_principal_id holder && is_text e.lease_token token

-- the comparison of two lists of ids, element by element
unfoldable pub same_ids : List String → List String → Bool
same_ids [] [] = true
same_ids [] (y ∷ ys) = false
same_ids (x ∷ xs) [] = false
same_ids (x ∷ xs) (y ∷ ys) = str_eq x y && same_ids xs ys

-- enqueueOutbox of packages/kernel/src/invariants.ts; AUTOINCREMENT gives a sequence number above
-- all that were given before, which the position at the end of the table stands for.
unfoldable pub enqueue_outbox : String → String → String → Json → Command Unit
enqueue_outbox topic aggregate_type aggregate_id payload = do
  id ← fresh "outbox"
  created ← now
  modify λ w. record w {
    db = record w.db {
      outbox_events =
          w.outbox_events
          ++ record {
            sequence = length w.outbox_events + 1;
            id = id;
            topic = topic;
            aggregate_type = aggregate_type;
            aggregate_id = aggregate_id;
            payload = payload;
            delivery_attempts = 0;
            lease_holder_principal_id = none;
            lease_token = none;
            lease_expires_at = none;
            created_at = created;
            acknowledged_at = none;
            acknowledged_by_principal_id = none;
          }
            ∷ [];
    };
  }
