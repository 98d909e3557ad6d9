-- ===== src/Tests/OutboxRuns.antt =====
-- packages/kernel/src/outbox.ts at a queue of three events.
use torsor.Prelude.{
  ◌+◌, ◌≡◌, refl, none, [], ◌∷◌, List, where_rows, first_row, update_rows, any_row, is_blank,
  is_space,
}
use torsor.Kernel.Action.{returned, final, for_each, ◌>>=◌}
use torsor.Kernel.Rows.{OutboxEvent}
use torsor.Kernel.World.{World, now, fresh}
use torsor.Kernel.Results.{CommandResult, bare_result}
use torsor.Kernel.Guards.{require_kind, require_outbox_event}
use torsor.Kernel.Values.{unique}
use torsor.Kernel.Outbox.Rows.{update_event, view_events, same_ids}
use torsor.Kernel.Outbox.Queue.{IsQueue}
use torsor.Kernel.Outbox.Claim.{claimable, claim_at, claim_outbox_events}
use torsor.Kernel.Outbox.Claimed.{Claims, claim-Claims}
use torsor.Kernel.Outbox.Acknowledge.{
  same_rows, require_events, require_live_lease, acknowledge_at, acknowledge_outbox_events,
}
use torsor.Kernel.Outbox.Acknowledged.{Acknowledges, acknowledge-Acknowledges}
use torsor.Tests.Worlds.{alice, bob, event_at, done_event, leased_event, outbox_world, result_or}

abbrev events : List OutboxEvent
events = done_event ∷ event_at 2 "e2" ∷ event_at 3 "e3" ∷ []

events-IsQueue : IsQueue events (done_event ∷ []) (event_at 2 "e2" ∷ event_at 3 "e3" ∷ [])
events-IsQueue = record {
  split = refl;
  done = (refl, tt);
  waiting = (refl, (refl, tt));
  distinct = ((refl, (refl, tt)), ((refl, tt), (tt, tt)));
}

abbrev claim_world : World
claim_world = outbox_world events

claimed_result : CommandResult
claimed_result = result_or (bare_result "") (claim_outbox_events none 2000 bob claim_world)

claimed_world : World
claimed_world = final (claim_outbox_events none 2000 bob claim_world)

claim_returns :
    claim_outbox_events none 2000 bob claim_world ≡ returned claimed_result claimed_world
unfolding claimed_result claimed_world claim_outbox_events claim_at claimable for_each update_event
    view_events require_kind require_outbox_event now fresh where_rows first_row update_rows ◌>>=◌
claim_returns = refl

claim-Claims_example :
    Claims bob 100 100 2100 "outbox_lease"
      (done_event ∷ [])
      (event_at 2 "e2" ∷ event_at 3 "e3" ∷ [])
      claimed_result
      claimed_world.outbox_events
claim-Claims_example =
    claim-Claims none 2000 bob claim_world claimed_world claimed_result (done_event ∷ [])
      (event_at 2 "e2" ∷ event_at 3 "e3" ∷ []) events-IsQueue claim_returns

abbrev leased_events : List OutboxEvent
leased_events = done_event ∷ leased_event ∷ event_at 3 "e3" ∷ []

leased_events-IsQueue :
    IsQueue leased_events (done_event ∷ []) (leased_event ∷ event_at 3 "e3" ∷ [])
leased_events-IsQueue = record {
  split = refl;
  done = (refl, tt);
  waiting = (refl, (refl, tt));
  distinct = ((refl, (refl, tt)), ((refl, tt), (tt, tt)));
}

abbrev acknowledge_world : World
acknowledge_world = outbox_world leased_events

acknowledged_result : CommandResult
acknowledged_result =
    result_or (bare_result "")
      (acknowledge_outbox_events ("e2" ∷ []) "secret" alice acknowledge_world)

acknowledged_world : World
acknowledged_world = final (acknowledge_outbox_events ("e2" ∷ []) "secret" alice acknowledge_world)

acknowledge_returns :
    acknowledge_outbox_events ("e2" ∷ []) "secret" alice acknowledge_world
    ≡ returned acknowledged_result acknowledged_world
unfolding acknowledged_result acknowledged_world acknowledge_outbox_events acknowledge_at same_rows
    same_ids require_events require_live_lease unique any_row is_blank is_space for_each
    update_event require_kind require_outbox_event now where_rows first_row update_rows ◌>>=◌
acknowledge_returns = refl

acknowledge-Acknowledges_example :
    Acknowledges
      (unique ("e2" ∷ []))
      "secret"
      "alice"
      acknowledge_world.clock
      (acknowledge_world.reads + 1)
      100
      leased_events
      (done_event ∷ [])
      (leased_event ∷ event_at 3 "e3" ∷ [])
      acknowledged_world.outbox_events
acknowledge-Acknowledges_example =
    acknowledge-Acknowledges ("e2" ∷ []) "secret" alice acknowledge_world acknowledged_world
      acknowledged_result (done_event ∷ []) (leased_event ∷ event_at 3 "e3" ∷ [])
      leased_events-IsQueue acknowledge_returns
