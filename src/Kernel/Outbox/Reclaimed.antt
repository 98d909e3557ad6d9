-- ===== src/Kernel/Outbox/Reclaimed.antt =====
-- packages/kernel/src/outbox.ts: what the answer to a repeated claim does to the queue.
use torsor.Prelude.{
  ℕ, String, ◌≡◌, ◌⊎◌, Option, none, some, List, [], ◌++◌, map, length, take, drop,
}
use torsor.Kernel.Rows.{OutboxEvent, Principal}
use torsor.Kernel.World.{World}
use torsor.Kernel.Results.{CommandResult, OutboxEventView, map_outbox_event}
use torsor.Kernel.Outbox.Rows.{ids_of, lease_event}
use torsor.Kernel.Outbox.Queue.{IsQueue}
use torsor.Kernel.Outbox.CachedClaim.{view_ids}

-- the ids of the events of a result
abbrev pub ids_in : Option (List OutboxEventView) → List String
ids_in none = []
ids_in (some views) = view_ids views

-- The events of the cached result are the oldest pending ones, and are leased anew.
pub record Reclaims (p : Principal) (ids : List String) (t ds ps t' : List OutboxEvent)
    (r : CommandResult) : Type 0 where
  pub token : String
  pub expiry : ℕ
  pub oldest : ids ≡ ids_of (take (length ids) ps)
  pub queue :
      IsQueue t' ds
        (map (lease_event p.id token expiry) (take (length ids) ps) ++ drop (length ids) ps)
  pub result_token : r.lease_token ≡ some token
  pub result_expiry : r.lease_expires_at ≡ some expiry
  pub events :
      r.outbox_events
      ≡ some (map map_outbox_event (map (lease_event p.id token expiry) (take (length ids) ps)))

abbrev pub Resolves :
    Principal
    → List String
    → List OutboxEvent
    → List OutboxEvent
    → List OutboxEvent
    → CommandResult
    → World
    → Type 0
Resolves p ids t ds ps r s = (s.outbox_events ≡ t) ⊎ Reclaims p ids t ds ps s.outbox_events r

module _ (p : Principal) (ids : List String) (ds ps t : List OutboxEvent)
    (q : IsQueue t ds ps) where
  abbrev front : List OutboxEvent
  front = take (length ids) ps

  module _ (token : String) (expiry : ℕ) (oldest : ids ≡ ids_of front) where
    abbrev change : OutboxEvent → OutboxEvent
    change = lease_event p.id token expiry
