-- ===== src/Kernel/Outbox/Loops.antt =====
-- packages/kernel/src/outbox.ts: the loops over events, as updates of the table.
use torsor.Prelude.{
  String, ◌≡◌, sym, ap, ◌∙◌, Option, some, List, [], ◌∷◌, map, All, first_row, update_rows,
}
use torsor.Kernel.Action.{pure, gets, modify, for_each}
use torsor.Kernel.Action.Triples.{
  Triple, Triple-pure, Triple-gets, Triple-or_throw, Triple-bind, Triple-weaken, Triple-carry,
}
use torsor.Kernel.Rows.{OutboxEvent}
use torsor.Kernel.World.{World, now}
use torsor.Kernel.Results.{OutboxEventView, map_outbox_event}
use torsor.Kernel.Guards.{require_outbox_event}
use torsor.Kernel.Outbox.Rows.{has_id, ids_of, update_event, view_events}
use torsor.Kernel.Outbox.Queue.{update_ids, Found}

-- Nothing is said of a throw: its writes are rolled back.
abbrev pub Any : World → Type 0
Any w = Unit

abbrev pub Holds : List OutboxEvent → World → Type 0
Holds t w = w.outbox_events ≡ t

pub Triple-update_events :
    (f : OutboxEvent → OutboxEvent) (ids : List String) (t : List OutboxEvent)
    → Triple Any (Holds t) (for_each (update_event f) ids) (λ _. Holds (update_ids f ids t))
unfolding for_each update_event update_ids modify pure
Triple-update_events f [] t = record { at = λ s h. h }
Triple-update_events f (i ∷ is) t =
    Triple-bind _ _ (Triple-update f i t)
      (λ _. Triple-update_events f is (update_rows (has_id i) f t))
  where
    Triple-update :
        (g : OutboxEvent → OutboxEvent) (j : String) (u : List OutboxEvent)
        → Triple Any (Holds u) (update_event g j) (λ _. Holds (update_rows (has_id j) g u))
    Triple-update g j u = record { at = λ s h. ap (update_rows (has_id j) g) h }

some-eq-some : {d e : OutboxEvent} → ◌≡◌ {A = Option OutboxEvent} (some d) (some e) → d ≡ e
some-eq-some h = cc

-- a condition under which the table is this one
module _ {P : World → Type 0} (t : List OutboxEvent) (table : (s : World) → P s → Holds t s) where
  pub Triple-require_event_in :
      (e : OutboxEvent)
      → Found t e
      → Triple Any P (require_outbox_event e.id) (λ d s. P s × (d ≡ e))
  unfolding require_outbox_event
  Triple-require_event_in e found = Triple-bind _ _ (Triple-gets _) λ x.
      Triple-weaken (λ s h. h) (Triple-or_throw x _ (λ s h. tt))
        λ d s h. (
          h.0.0,
          some-eq-some (sym h.1 ∙ sym h.0.1 ∙ ap (first_row (has_id e.id)) (table s h.0.0) ∙ found),
        )

  -- A query of the table.
  pub Triple-query_in :
      {A : Type 0} (f : List OutboxEvent → A)
      → Triple Any P (gets (λ w. f w.outbox_events)) (λ a s. P s × (a ≡ f t))
  Triple-query_in f =
      Triple-weaken (λ s h. h) (Triple-gets _) (λ a s h. (h.0, sym h.1 ∙ ap f (table s h.0)))

Triple-require_event :
    (t : List OutboxEvent) (e : OutboxEvent)
    → Found t e
    → Triple Any (Holds t) (require_outbox_event e.id) (λ d s. Holds t s × (d ≡ e))
Triple-require_event t e found = Triple-require_event_in t (λ s h. h) e found

pub Triple-view_events :
    (t es : List OutboxEvent)
    → All (Found t) es
    → Triple Any
        (Holds t)
        (view_events (ids_of es))
        (λ vs s. Holds t s × (vs ≡ map map_outbox_event es))
unfolding view_events
Triple-view_events t [] found = Triple-pure []
Triple-view_events t (e ∷ es) found = Triple-bind _ _ (Triple-require_event t e found.0) λ d.
    Triple-bind _ _
      (Triple-weaken (λ s h. h) (Triple-carry (Triple-view_events t es found.1)) (λ vs s h. h))
      λ vs.
        Triple-weaken (λ s h. h) (Triple-pure _)
          (λ us s h. (h.0.0.0, h.1 ∙ cons-map d e vs es h.0.1 h.0.0.1))
  where
    cons-map :
        (d' e' : OutboxEvent) (us : List OutboxEventView) (fs : List OutboxEvent)
        → d' ≡ e'
        → us ≡ map map_outbox_event fs
        → map_outbox_event d' ∷ us ≡ map map_outbox_event (e' ∷ fs)
    cons-map d' e' us fs p q = cc

pub Triple-query :
    {A : Type 0} (t : List OutboxEvent) (f : List OutboxEvent → A)
    → Triple Any (Holds t) (gets (λ w. f w.outbox_events)) (λ a s. Holds t s × (a ≡ f t))
Triple-query t f = Triple-query_in t (λ s h. h) f

pub Triple-now : (t : List OutboxEvent) → Triple Any (Holds t) now (λ _ s. Holds t s × Unit)
unfolding now
Triple-now t = record { at = λ s h. (h, tt) }
