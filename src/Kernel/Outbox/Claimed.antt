-- ===== src/Kernel/Outbox/Claimed.antt =====
-- packages/kernel/src/outbox.ts: what a claim takes from the queue.
use torsor.Prelude.{
  ◌⊎◌, false, ℕ, zero, suc, ◌+◌, String, ◌≡◌, refl, sym, ap, subst, ◌∙◌, true, Option, List, [],
  ◌∷◌, ◌++◌, map, All, arith, take, drop, length, Bool-cases, inl, inr,
}
use torsor.Kernel.Action.{returned, pure, for_each, ◌>>=◌, ◌>>◌}
use torsor.Kernel.Action.Triples.{
  Triple, Triple-pure, Triple-gets, Triple-bind, Triple-weaken, Triple-assume, Triple-returned,
}
use torsor.Kernel.Rows.{OutboxEvent, Principal}
use torsor.Kernel.World.{World, now, fresh}
use torsor.Kernel.Results.{CommandResult, map_outbox_event}
use torsor.Kernel.Guards.{require_kind}
use torsor.Kernel.Outbox.Rows.{
  pending, is_pending_event, is_live_at, lease_event, ids_of, view_events, update_event,
}
use torsor.Kernel.Outbox.Queue.{
  All-append, All-append_left, All-append_right, IsQueue, IsQueue-pending, update_ids,
  update_ids_middle, Distinct-middle, Found-middle, Found, ids_of-map,
}
use torsor.Kernel.Outbox.Loops.{Any, Holds, Triple-update_events, Triple-view_events}
use torsor.Kernel.Outbox.Claim.{
  claimable, claim_result, claim_at, limit_or_default, claim_outbox_events,
}

-- The events that a claim of at most `count` takes at an instant, and those that it leaves.
unfoldable pub taken : ℕ → ℕ → List OutboxEvent → List OutboxEvent
taken count at ps = claimable at (take count ps)

unfoldable pub left : ℕ → ℕ → List OutboxEvent → List OutboxEvent
left count at ps = drop (length (taken count at ps)) ps

taken-append-left :
    (count at : ℕ) (ps : List OutboxEvent) → taken count at ps ++ left count at ps ≡ ps
unfolding taken left claimable
taken-append-left zero at ps = refl
taken-append-left (suc n) at [] = refl
taken-append-left (suc n) at (e ∷ es) = elim (Bool-cases (is_live_at e.lease_expires_at at)) [
  | inl live ↦ rw live
  | inr free ↦ rw free (ap (λ l. e ∷ l) (taken-append-left n at es))
]

taken-free :
    (count at : ℕ) (ps : List OutboxEvent)
    → All (λ e. is_live_at e.lease_expires_at at ≡ false) (taken count at ps)
unfolding taken claimable
taken-free zero at ps = tt
taken-free (suc n) at [] = tt
taken-free (suc n) at (e ∷ es) = elim (Bool-cases (is_live_at e.lease_expires_at at)) [
  | inl live ↦ rw live tt
  | inr free ↦ rw free (free, taken-free n at es)
]

abbrev pub StartsLive : ℕ → List OutboxEvent → Type 0
StartsLive at [] = ⊥
StartsLive at (e ∷ es) = is_live_at e.lease_expires_at at ≡ true

-- A claim takes less than its limit only where the next event is leased.
taken-longest :
    (count at : ℕ) (ps : List OutboxEvent)
    → (taken count at ps ≡ take count ps) ⊎ StartsLive at (left count at ps)
unfolding taken left claimable
taken-longest zero at ps = inl refl
taken-longest (suc n) at [] = inl refl
taken-longest (suc n) at (e ∷ es) = elim (Bool-cases (is_live_at e.lease_expires_at at)) [
  | inl live ↦ inr (rw live live)
  | inr free ↦ rw free (longer (taken-longest n at es))
]
  where
    longer :
        (taken n at es ≡ take n es) ⊎ StartsLive at (left n at es)
        → (e ∷ taken n at es ≡ e ∷ take n es) ⊎ StartsLive at (left n at es)
    longer (inl h) = inl (ap (λ l. e ∷ l) h)
    longer (inr h) = inr h

map-All :
    (f : OutboxEvent → OutboxEvent) (xs : List OutboxEvent)
    → ((e : OutboxEvent) → is_pending_event (f e) ≡ is_pending_event e)
    → All (λ e. is_pending_event e ≡ true) xs
    → All (λ e. is_pending_event e ≡ true) (map f xs)
map-All f [] k h = tt
map-All f (x ∷ xs) k h = (k x ∙ h.0, map-All f xs k h.1)

-- A lease on some of the pending events leaves a queue.
pub lease-IsQueue :
    (f : OutboxEvent → OutboxEvent)
    → ((e : OutboxEvent) → (f e).id ≡ e.id)
    → ((e : OutboxEvent) → is_pending_event (f e) ≡ is_pending_event e)
    → (ds xs ys t : List OutboxEvent) → IsQueue t ds (xs ++ ys)
    → IsQueue (update_ids f (ids_of xs) t) ds (map f xs ++ ys)
lease-IsQueue f keeps opens ds xs ys t q = record {
  split = ap (update_ids f (ids_of xs)) q.split ∙ update_ids_middle f keeps ds xs ys q.distinct;
  done = q.done;
  waiting =
      All-append _ (map f xs) ys (map-All f xs opens (All-append_left _ xs ys q.waiting))
        (All-append_right _ xs ys q.waiting);
  distinct = Distinct-middle f keeps ds xs ys q.distinct;
}

-- What a claim has done when it returns.
pub record Claims (p : Principal) (count at expiry : ℕ) (token : String) (ds ps : List OutboxEvent)
    (r : CommandResult) (t : List OutboxEvent) : Type 0 where
  pub queue :
      IsQueue t ds (map (lease_event p.id token expiry) (taken count at ps) ++ left count at ps)
  pub free : All (λ e. is_live_at e.lease_expires_at at ≡ false) (taken count at ps)
  pub longest : (taken count at ps ≡ take count ps) ⊎ StartsLive at (left count at ps)
  pub result :
      r
      ≡ claim_result token expiry
          (map map_outbox_event (map (lease_event p.id token expiry) (taken count at ps)))

module _ (count duration : ℕ) (p : Principal) (at : ℕ) (token : String) (ds ps t : List OutboxEvent)
    (q : IsQueue t ds ps) where
  abbrev change : OutboxEvent → OutboxEvent
  change = lease_event p.id token (at + duration)

  abbrev claimed : List OutboxEvent
  claimed = taken count at ps

  IsQueue-after :
      IsQueue (update_ids change (ids_of claimed) t) ds (map change claimed ++ left count at ps)
  IsQueue-after =
      lease-IsQueue change (λ e. refl) (λ e. refl) ds claimed (left count at ps) t
        (subst (IsQueue t ds) (sym (taken-append-left count at ps)) q)

  Found-after : All (Found (update_ids change (ids_of claimed) t)) (map change claimed)
  Found-after =
      subst (λ u. All (Found u) (map change claimed)) (sym IsQueue-after.split)
        (Found-middle ds (map change claimed) (left count at ps) IsQueue-after.distinct)

  body-Claims :
      Triple Any
        (Holds t)
        (for_each (update_event change) (ids_of claimed)
          >> (view_events (ids_of claimed) >>= λ views.
              pure (claim_result token (at + duration) views)))
        (λ r s. Claims p count at (at + duration) token ds ps r s.outbox_events)
  body-Claims = Triple-bind _ _ (Triple-update_events change (ids_of claimed) t) λ _.
      Triple-bind _ _
        (subst
          (λ ids.
            Triple Any (Holds (update_ids change (ids_of claimed) t)) (view_events ids) (λ vs s.
              Holds (update_ids change (ids_of claimed) t) s
              × (vs ≡ map map_outbox_event (map change claimed))))
          (ids_of-map change (λ e. refl) claimed)
          (Triple-view_events (update_ids change (ids_of claimed) t) (map change claimed)
            Found-after))
        λ views.
          Triple-weaken (λ s h. h) (Triple-pure _)
            λ r s h. record {
              queue =
                  subst (λ u. IsQueue u ds (map change claimed ++ left count at ps)) (sym h.0.0)
                    IsQueue-after;
              free = taken-free count at ps;
              longest = taken-longest count at ps;
              result = h.1 ∙ ap (claim_result token (at + duration)) h.0.1;
            }

  claim_at-Claims :
      Triple Any
        (Holds t)
        (claim_at count duration p at token)
        (λ r s. Claims p count at (at + duration) token ds ps r s.outbox_events)
  unfolding claim_at taken
  claim_at-Claims = Triple-bind _ _ (Triple-gets _) λ candidates.
      Triple-weaken
        (λ s h. (
          h.0,
          sym h.1
              ∙ ap (λ u. take count (pending u)) h.0
              ∙ ap (take count) (IsQueue-pending t ds ps q),
        ))
        (Triple-assume λ e.
          subst
            (λ cs.
              Triple Any (Holds t)
                (for_each (update_event change) (ids_of (claimable at cs))
                  >> (view_events (ids_of (claimable at cs)) >>= λ views.
                      pure (claim_result token (at + duration) views)))
                (λ r s. Claims p count at (at + duration) token ds ps r s.outbox_events))
            (sym e) body-Claims)
        (λ r s h. h)

claim_inner :
    (limit : Option ℕ) (d : ℕ) (p : Principal) (w : World) {r : CommandResult} {w' : World}
    → claim_outbox_events limit d p w ≡ returned r w'
    → claim_at
        (limit_or_default limit)
        d
        p
        (w.clock w.reads)
        (w.names "outbox_lease" w.issued)
        (record w { reads = w.reads + 1; issued = w.issued + 1 })
      ≡ returned r w'
unfolding claim_outbox_events require_kind now fresh ◌>>=◌
claim_inner limit d p w h = ground arith

-- A claim that returns, on a queue of events: the acknowledged events are untouched; of the pending
-- ones a run from the oldest on, without a live lease at the instant observed, which is `limit` (100
-- by default) long unless an event with a live lease or the end of the queue comes first, is leased to the principal under the new token until that instant
-- plus the duration, with one more delivery attempt each; those behind it are as they were; and the
-- result holds exactly the leased events, oldest first.
pub claim-Claims :
    (limit : Option ℕ) (d : ℕ) (p : Principal) (w w' : World) (r : CommandResult)
    (ds ps : List OutboxEvent)
    → IsQueue w.outbox_events ds ps
    → claim_outbox_events limit d p w ≡ returned r w'
    → Claims p
        (limit_or_default limit)
        (w.clock w.reads)
        (w.clock w.reads + d)
        (w.names "outbox_lease" w.issued)
        ds
        ps
        r
        w'.outbox_events
claim-Claims limit d p w w' r ds ps q h =
    Triple-returned
      (claim_at-Claims (limit_or_default limit) d p (w.clock w.reads)
        (w.names "outbox_lease" w.issued) ds ps w.outbox_events q)
      (record w { reads = w.reads + 1; issued = w.issued + 1 }) refl (claim_inner limit d p w h)
