-- ===== src/Tests/DeliveryRuns.antt =====
-- packages/kernel/src/outbox.ts: deliveries, repeated claims and new events at a small queue.
use torsor.Prelude.{
  ◌≡◌, refl, none, some, [], ◌∷◌, List, true, where_rows, first_row, update_rows, any_row, all_rows,
  is_blank, is_space, str_eq,
}
use torsor.Kernel.Action.{returned, final, for_each, ◌>>=◌}
use torsor.Kernel.Rows.{OutboxEvent, RunInput, pending, object, field, end, string, get_field}
use torsor.Kernel.World.{World, now, fresh, empty_db}
use torsor.Kernel.Results.{CommandResult, bare_result, map_outbox_event}
use torsor.Kernel.Guards.{require_kind, require_outbox_event}
use torsor.Kernel.Outbox.Rows.{update_event, view_events, same_ids}
use torsor.Kernel.Outbox.Queue.{IsQueue}
use torsor.Kernel.Outbox.Delivery.{
  OutboxAuthority, DeliveryAuthority, awaits, require_outbox_delivery_authority,
  require_outbox_activation_authority, require_outbox_provider_authority,
}
use torsor.Kernel.Outbox.Delivered.{
  Delivers, activation_authority-Delivers, provider_authority-Delivers,
}
use torsor.Kernel.Outbox.CachedClaim.{pending_rows, resolve_cached_outbox_claim}
use torsor.Tests.Worlds.{
  alice, event_at, done_event, leased_event, outbox_world, world_of, result_or,
}

-- alice's leased event, which names the input of the Run
abbrev named_event : OutboxEvent
named_event = record leased_event { payload = object (field "runInputId" (string "i1") end) }

abbrev pub input : RunInput
input = record {
  id = "i1";
  run_id = "run";
  message_revision_id = "m1";
  run_input_sequence = 1;
  assigned_by_principal_id = "human";
  assigned_by_activation_id = none;
  source_attention_id = none;
  created_at = 1;
  disposition = pending;
  disposition_revision = 1;
  disposition_reason = none;
  superseded_by_run_input_id = none;
}

abbrev waiting_events : List OutboxEvent
waiting_events = named_event ∷ event_at 3 "e3" ∷ []

abbrev pub events : List OutboxEvent
events = done_event ∷ waiting_events

abbrev delivery_world : World
delivery_world = world_of (record empty_db { outbox_events = events; run_inputs = input ∷ [] })

events-IsQueue : IsQueue events (done_event ∷ []) waiting_events
events-IsQueue = record {
  split = refl;
  done = (refl, tt);
  waiting = (refl, (refl, tt));
  distinct = ((refl, (refl, tt)), ((refl, tt), (tt, tt)));
}

abbrev pub command : OutboxAuthority
command = record { outbox_event_id = some "e2"; outbox_lease_token = some "secret" }

abbrev authority : DeliveryAuthority
authority = record { lease_expires_at = 500; observed_at = 100; run_input_id = "i1" }

abbrev read_world : World
read_world = record delivery_world { reads = 1 }

-- opens what the commands are made of
unfoldable pub delivery_code : Unit {0}
unfolding require_kind require_outbox_event now fresh where_rows first_row update_rows any_row
    all_rows is_blank is_space get_field for_each update_event view_events same_ids pending_rows
    ◌>>=◌
delivery_code = tt

activation_returns :
    require_outbox_activation_authority command alice "run" delivery_world
    ≡ returned authority read_world
unfolding require_outbox_activation_authority require_outbox_delivery_authority delivery_code
activation_returns = refl

provider_returns :
    require_outbox_provider_authority command alice "run" ("i1" ∷ []) delivery_world
    ≡ returned authority read_world
unfolding require_outbox_provider_authority require_outbox_delivery_authority delivery_code
provider_returns = refl

activation_authority-Delivers_example :
    (read_world.db ≡ delivery_world.db)
    × (((e : OutboxEvent) × Delivers command alice "run" events waiting_events authority e)
        × (awaits "run" (first_row (λ i. str_eq i.id "i1") (input ∷ [])) ≡ true))
activation_authority-Delivers_example =
    activation_authority-Delivers command alice "run" delivery_world read_world (done_event ∷ [])
      waiting_events authority events-IsQueue activation_returns

provider_authority-Delivers_example :
    (read_world.db ≡ delivery_world.db)
    × (((e : OutboxEvent) × Delivers command alice "run" events waiting_events authority e)
        × (any_row (str_eq "i1") ("i1" ∷ []) ≡ true))
provider_authority-Delivers_example =
    provider_authority-Delivers command alice "run" ("i1" ∷ []) delivery_world read_world
      (done_event ∷ []) waiting_events authority events-IsQueue provider_returns

-- a claim of alice's whose lease ran out at 90
abbrev lapsed_event : OutboxEvent
lapsed_event = record leased_event { lease_expires_at = some 90 }

abbrev lapsed_events : List OutboxEvent
lapsed_events = done_event ∷ lapsed_event ∷ event_at 3 "e3" ∷ []

abbrev lapsed_world : World
lapsed_world = outbox_world lapsed_events

abbrev cached : CommandResult
cached = record (bare_result "secret") {
  lease_token = some "secret";
  lease_expires_at = some 90;
  outbox_events = some (map_outbox_event lapsed_event ∷ []);
}

renewed_result : CommandResult
renewed_result =
    result_or (bare_result "") (resolve_cached_outbox_claim 2000 cached alice lapsed_world)

renewed_world : World
renewed_world = final (resolve_cached_outbox_claim 2000 cached alice lapsed_world)
