-- ===== src/Kernel/Outbox/Acknowledged.antt =====
-- packages/kernel/src/outbox.ts: what an acknowledgement takes off the queue.
use torsor.Prelude.{
  take-append-drop, append_assoc, ℕ, String, ◌≡◌, refl, sym, ap, subst, ◌∙◌, ◌+◌, true, false, List,
  [], ◌∷◌, ◌++◌, map, All, arith, take, drop, length, where_rows,
}
use torsor.Kernel.Action.{returned, pure, for_each, ◌>>=◌, ◌>>◌}
use torsor.Kernel.Action.Triples.{
  Triple, Triple-pure, Triple-check, Triple-bind, Triple-next, Triple-weaken, Triple-returned,
  Triple-assume,
}
use torsor.Kernel.Rows.{OutboxEvent, Principal}
use torsor.Kernel.World.{World, now}
use torsor.Kernel.Results.{CommandResult, bare_result}
use torsor.Kernel.Guards.{require_kind}
use torsor.Kernel.Values.{unique}
use torsor.Kernel.Outbox.Rows.{
  pending, is_pending_event, is_leased_by, same_ids, ids_of, update_event,
}
use torsor.Kernel.Outbox.Queue.{
  IsQueue, IsQueue-pending, update_ids, update_ids_middle, Distinct, Distinct-middle, All-append,
  All-append_right, Found-middle, Found,
}
use torsor.Kernel.Outbox.Loops.{Any, Triple-update_events, Triple-query_in}
use torsor.Kernel.Outbox.Acknowledge.{
  same_rows, require_events, require_live_lease, acknowledge_event, acknowledge_at,
  acknowledge_outbox_events,
}
use torsor.Kernel.Outbox.Held.{
  same_ids-equal, same_rows-ids, length-ids_of, Reads, HeldBy, Triple-require_live_leases,
  Triple-require_events,
}

-- What an acknowledgement of `ids` has done when it returns.
pub record Acknowledges (ids : List String) (token holder : String) (clock : ℕ → ℕ) (n at : ℕ)
    (t ds ps t' : List OutboxEvent) : Type 0 where
  pub queue :
      IsQueue t'
        (ds ++ map (acknowledge_event holder at) (take (length ids) ps))
        (drop (length ids) ps)
  pub oldest : ids ≡ ids_of (take (length ids) ps)
  pub held : HeldBy holder token clock n (take (length ids) ps)
  pub whole : ids ≡ ids_of (where_rows (is_leased_by holder token) t)

map-All :
    (f : OutboxEvent → OutboxEvent) (xs : List OutboxEvent)
    → ((e : OutboxEvent) → is_pending_event (f e) ≡ false)
    → All (λ e. is_pending_event e ≡ false) (map f xs)
map-All f [] k = tt
map-All f (x ∷ xs) k = (k x, map-All f xs k)

-- The oldest pending events, once they are acknowledged, are the latest of the acknowledged ones.
acknowledge-IsQueue :
    (f : OutboxEvent → OutboxEvent)
    → ((e : OutboxEvent) → (f e).id ≡ e.id)
    → ((e : OutboxEvent) → is_pending_event (f e) ≡ false)
    → (ds xs ys t : List OutboxEvent) → IsQueue t ds (xs ++ ys)
    → IsQueue (update_ids f (ids_of xs) t) (ds ++ map f xs) ys
acknowledge-IsQueue f keeps closes ds xs ys t q = record {
  split =
      ap (update_ids f (ids_of xs)) q.split
      ∙ update_ids_middle f keeps ds xs ys q.distinct
      ∙ sym (append_assoc ds (map f xs) ys);
  done = All-append _ ds (map f xs) q.done (map-All f xs closes);
  waiting = All-append_right _ xs ys q.waiting;
  distinct =
      subst Distinct (sym (append_assoc ds (map f xs) ys))
        (Distinct-middle f keeps ds xs ys q.distinct);
}

module _ (ids : List String) (token : String) (p : Principal) (clock : ℕ → ℕ) (n at : ℕ)
    (ds ps t : List OutboxEvent) (q : IsQueue t ds ps) where
  abbrev change : OutboxEvent → OutboxEvent
  change = acknowledge_event p.id at

  abbrev oldest_events : List OutboxEvent
  oldest_events = take (length ids) ps

  abbrev leased_events : List OutboxEvent
  leased_events = where_rows (is_leased_by p.id token) t

  IsQueue-before : IsQueue t ds (oldest_events ++ drop (length ids) ps)
  IsQueue-before = subst (IsQueue t ds) (sym (take-append-drop (length ids) ps)) q

  found : All (Found t) oldest_events
  found =
      subst (λ u. All (Found u) oldest_events) (sym IsQueue-before.split)
        (Found-middle ds oldest_events (drop (length ids) ps) IsQueue-before.distinct)

  -- Both comparisons passed: the ids are those of the oldest pending events.
  ids-oldest :
      (leased prefix : List OutboxEvent)
      → same_ids (ids_of leased) ids ≡ true
      → prefix ≡ take (length leased) (pending t)
      → same_rows prefix leased ≡ true
      → ids ≡ ids_of oldest_events
  ids-oldest leased prefix same e rows =
      let ids_leased = same_ids-equal (ids_of leased) ids same in
      let many = sym (length-ids_of leased) ∙ ap length ids_leased in
      let first =
        e
        ∙ ap (λ n. take n (pending t)) many
        ∙ ap (take (length ids)) (IsQueue-pending t ds ps q) in
      sym ids_leased ∙ sym (same_rows-ids prefix leased rows) ∙ ap ids_of first

  module _ (leased_ids : ids ≡ ids_of leased_events) (oldest_ids : ids ≡ ids_of oldest_events) where
    tail-Acknowledges :
        (events : List OutboxEvent)
        → events ≡ oldest_events
        → Triple Any
            (Reads t clock n)
            (for_each (require_live_lease p.id token) events
              >> (for_each (update_event change) (ids_of events) >> pure (bare_result token)))
            (λ _ s. Acknowledges ids token p.id clock n at t ds ps s.outbox_events)
    tail-Acknowledges events e =
        Triple-bind _ _ (Triple-require_live_leases t clock p.id token n events) λ _.
          Triple-assume λ held. Triple-bind _ _ (Triple-update_events change (ids_of events) t) λ _.
            Triple-weaken (λ s h. h) (Triple-pure _)
              λ _ s h. record {
                queue =
                    subst (λ u. IsQueue u (ds ++ map change oldest_events) (drop (length ids) ps))
                      (sym (h.0 ∙ ap (λ es. update_ids change (ids_of es) t) e))
                      (acknowledge-IsQueue change (λ d. refl) (λ d. refl) ds oldest_events
                        (drop (length ids) ps) t IsQueue-before);
                oldest = oldest_ids;
                held = subst (HeldBy p.id token clock n) e held;
                whole = leased_ids;
              }

    events-Acknowledges :
        Triple Any
          (Reads t clock n)
          (require_events ids >>= λ events.
            for_each (require_live_lease p.id token) events
            >> (for_each (update_event change) (ids_of events) >> pure (bare_result token)))
          (λ _ s. Acknowledges ids token p.id clock n at t ds ps s.outbox_events)
    events-Acknowledges =
        Triple-next
          (subst
            (λ is.
              Triple Any (Reads t clock n) (require_events is)
                (λ es s. Reads t clock n s × (es ≡ oldest_events)))
            (sym oldest_ids) (Triple-require_events t clock n oldest_events found))
          tail-Acknowledges

  acknowledge_at-Acknowledges :
      Triple Any
        (Reads t clock n)
        (acknowledge_at ids token p at)
        (λ _ s. Acknowledges ids token p.id clock n at t ds ps s.outbox_events)
  unfolding acknowledge_at
  acknowledge_at-Acknowledges =
      Triple-next (Triple-query_in t (λ s h. h.0) (where_rows (is_leased_by p.id token)))
        λ leased e1. Triple-next (Triple-check _ _ (λ s h. tt)) λ _ same.
          Triple-next (Triple-query_in t (λ s h. h.0) (λ u. take (length leased) (pending u)))
            λ prefix e2. Triple-next (Triple-check _ _ (λ s h. tt)) λ _ rows.
              events-Acknowledges (sym (same_ids-equal (ids_of leased) ids same) ∙ ap ids_of e1)
                (ids-oldest leased prefix same e2 rows)

acknowledge_inner :
    (ids : List String) (token : String) (p : Principal) (w : World) {r : CommandResult}
    {w' : World}
    → acknowledge_outbox_events ids token p w ≡ returned r w'
    → acknowledge_at (unique ids) token p (w.clock w.reads) (record w { reads = w.reads + 1 })
      ≡ returned r w'
unfolding acknowledge_outbox_events require_kind now ◌>>=◌
acknowledge_inner ids token p w h = ground arith

-- An acknowledgement that returns, on a queue of events: the ids, without repetition, are those of
-- the oldest pending events in the order of the queue, and of all the events that the principal
-- holds under the token; each of these events is held by the principal under the token, with a lease
-- that is live at the event's own reading of the clock: after the first reading, which dates the
-- acknowledgement, one reading for each event, in order; and they move, acknowledged, to the end of
-- the acknowledged events, while the events before and behind them are as they were.
pub acknowledge-Acknowledges :
    (ids : List String) (token : String) (p : Principal) (w w' : World) (r : CommandResult)
    (ds ps : List OutboxEvent)
    → IsQueue w.outbox_events ds ps
    → acknowledge_outbox_events ids token p w ≡ returned r w'
    → Acknowledges
        (unique ids)
        token
        p.id
        w.clock
        (w.reads + 1)
        (w.clock w.reads)
        w.outbox_events
        ds
        ps
        w'.outbox_events
acknowledge-Acknowledges ids token p w w' r ds ps q h =
    Triple-returned
      (acknowledge_at-Acknowledges (unique ids) token p w.clock (w.reads + 1) (w.clock w.reads) ds
        ps w.outbox_events q)
      (record w { reads = w.reads + 1 }) (refl, refl, refl) (acknowledge_inner ids token p w h)
