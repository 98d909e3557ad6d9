-- ===== src/Kernel/Outbox/Delivered.antt =====
-- packages/kernel/src/outbox.ts: what a delivery authority that was returned has checked.
use torsor.Prelude.{
  and_true, ℕ, String, ◌≡◌, refl, sym, ap, subst, ◌∙◌, true, ◌&&◌, Option, some, List, [], ◌∷◌,
  ◌++◌, eq_iff, str_eq, where_rows, first_row, any_row,
}
use torsor.Kernel.Action.{returned}
use torsor.Kernel.Action.Triples.{
  Triple, Triple-pure, Triple-check, Triple-next, Triple-weaken, Triple-returned,
}
use torsor.Kernel.Rows.{OutboxEvent, Principal}
use torsor.Kernel.World.{World, Db}
use torsor.Kernel.Guards.{require_kind}
use torsor.Kernel.ReadOnly.{Any, Same, Triple-read, Triple-observe, Triple-row, Triple-event}
use torsor.Kernel.Outbox.Rows.{pending, has_id, is_leased_by, is_live_at, ids_of}
use torsor.Kernel.Outbox.Queue.{IsQueue, IsQueue-pending, Found-middle}
use torsor.Kernel.Outbox.Delivery.{
  OutboxAuthority, DeliveryAuthority, or_empty, is_only, is_first, payload_run_input, is_run_topic,
  awaits, require_outbox_delivery_authority, require_outbox_activation_authority,
  require_outbox_provider_authority,
}

-- The event of a delivery: the oldest pending one, and the only one that the principal holds under
-- the token, under a lease that is live at the instant observed; it speaks of this Run.
pub record Delivers (c : OutboxAuthority) (p : Principal) (run_id : String)
    (t ps : List OutboxEvent) (a : DeliveryAuthority) (e : OutboxEvent) : Type 0 where
  pub named : e.id ≡ or_empty c.outbox_event_id
  pub oldest : (rest : List OutboxEvent) × (ps ≡ e ∷ rest)
  pub leased : is_leased_by p.id (or_empty c.outbox_lease_token) e ≡ true
  pub live : is_live_at e.lease_expires_at a.observed_at ≡ true
  pub until : e.lease_expires_at ≡ some a.lease_expires_at
  pub alone : ids_of (where_rows (is_leased_by p.id (or_empty c.outbox_lease_token)) t) ≡ e.id ∷ []
  pub aimed : e.aggregate_id ≡ run_id
  pub topic : is_run_topic e.topic ≡ true
  pub input : payload_run_input e.payload ≡ some a.run_input_id

is_only-ids : (id : String) (es : List OutboxEvent) → is_only id es ≡ true → ids_of es ≡ id ∷ []
is_only-ids id [] h = cc
is_only-ids id (e ∷ []) h = ap (λ i. i ∷ []) ((eq_iff e.id id).0 h)
is_only-ids id (e ∷ f ∷ es) h = cc

some_equal : {d e : OutboxEvent} → ◌≡◌ {A = Option OutboxEvent} (some d) (some e) → d ≡ e
some_equal h = cc

-- On a queue, the event that an id finds is the oldest pending one if that has the id.
oldest_event :
    (id : String) (t ds ps : List OutboxEvent) (e : OutboxEvent)
    → IsQueue t ds ps
    → first_row (has_id id) t ≡ some e
    → is_first id ps ≡ true
    → (e.id ≡ id) × ((rest : List OutboxEvent) × (ps ≡ e ∷ rest))
oldest_event id t ds [] e q found first = cc
oldest_event id t ds (d ∷ rest) e q found first =
    let same = (eq_iff d.id id).0 first in
    let at_front = (Found-middle ds (d ∷ []) rest q.distinct).0 in
    let equal = some_equal (
      sym at_front
      ∙ ap (λ i. first_row (has_id i) (ds ++ (d ∷ rest))) same
      ∙ ap (first_row (has_id id)) (sym q.split)
      ∙ found) in
    (sym (ap (λ f. f.id) equal) ∙ same, (rest, ap (λ f. f ∷ rest) equal))

module _ (c : OutboxAuthority) (p : Principal) (run_id : String) (d : Db) (ds ps : List OutboxEvent)
    (q : IsQueue d.outbox_events ds ps) where
  abbrev Delivered : DeliveryAuthority → Type 0
  Delivered a = (e : OutboxEvent) × Delivers c p run_id d.outbox_events ps a e

  delivers :
      (e : OutboxEvent) (at : ℕ) (leased frontier : List OutboxEvent) (input : String) (expiry : ℕ)
      → first_row (has_id (or_empty c.outbox_event_id)) d.outbox_events ≡ some e
      → (is_leased_by p.id (or_empty c.outbox_lease_token) e && is_live_at e.lease_expires_at at)
        ≡ true
      → (str_eq e.aggregate_type "Run" && str_eq e.aggregate_id run_id && is_run_topic e.topic)
        ≡ true
      → leased ≡ where_rows (is_leased_by p.id (or_empty c.outbox_lease_token)) d.outbox_events
      → is_only (or_empty c.outbox_event_id) leased ≡ true
      → frontier ≡ pending d.outbox_events
      → is_first (or_empty c.outbox_event_id) frontier ≡ true
      → payload_run_input e.payload ≡ some input
      → e.lease_expires_at ≡ some expiry
      → Delivers c p run_id d.outbox_events ps
          (record { lease_expires_at = expiry; observed_at = at; run_input_id = input })
          e
  delivers e at leased frontier input expiry found held aimed leased_eq only frontier_eq first
        input_eq expiry_eq =
      let front = oldest_event (or_empty c.outbox_event_id) d.outbox_events ds ps e q found (
        subst (λ es. is_first (or_empty c.outbox_event_id) es ≡ true)
          (frontier_eq ∙ IsQueue-pending d.outbox_events ds ps q) first) in
      let kind_topic = and_true _ _ aimed in
      record {
        named = front.0;
        oldest = front.1;
        leased = (and_true _ _ held).0;
        live = (and_true _ _ held).1;
        until = expiry_eq;
        alone =
            ap ids_of (sym leased_eq) ∙ is_only-ids _ leased only ∙ ap (λ i. i ∷ []) (sym front.0);
        aimed = (eq_iff e.aggregate_id run_id).0 (and_true _ _ kind_topic.0).1;
        topic = kind_topic.1;
        input = input_eq;
      }

  delivery-Triple :
      Triple Any
        (Same d)
        (require_outbox_delivery_authority c p run_id)
        (λ a s. Same d s × Delivered a)
  unfolding require_outbox_delivery_authority require_kind
  delivery-Triple = Triple-next (Triple-check _ _ (λ s h. tt)) λ _ _.
      Triple-next (Triple-check _ _ (λ s h. tt)) λ _ _.
        Triple-next (Triple-check _ _ (λ s h. tt)) λ _ _.
          Triple-next (Triple-event d (or_empty c.outbox_event_id)) λ e found.
            Triple-next (Triple-observe d) λ at _.
              Triple-next (Triple-check _ _ (λ s h. tt)) λ _ held.
                Triple-next (Triple-check _ _ (λ s h. tt)) λ _ aimed.
                  Triple-next
                    (Triple-read d (λ u.
                      where_rows (is_leased_by p.id (or_empty c.outbox_lease_token))
                        u.outbox_events))
                    λ leased leased_eq. Triple-next (Triple-check _ _ (λ s h. tt)) λ _ only.
                      Triple-next (Triple-read d (λ u. pending u.outbox_events))
                        λ frontier frontier_eq.
                          Triple-next (Triple-check _ _ (λ s h. tt)) λ _ first.
                            Triple-next (Triple-row d (payload_run_input e.payload) _)
                              λ input input_eq.
                                Triple-next (Triple-row d e.lease_expires_at _) λ expiry expiry_eq.
                                  Triple-weaken (λ s h. h) (Triple-pure _)
                                    λ a s h. (
                                      h.0,
                                      (
                                        e,
                                        subst (λ b. Delivers c p run_id d.outbox_events ps b e)
                                            (sym h.1)
                                            (delivers e at leased frontier input expiry found held
                                              aimed leased_eq only frontier_eq first input_eq
                                              expiry_eq),
                                      ),
                                    )

  -- the input of the event waits in the Run
  abbrev pub Waits : DeliveryAuthority → Type 0
  Waits a = awaits run_id (first_row (λ i. str_eq i.id a.run_input_id) d.run_inputs) ≡ true

  activation-Triple :
      Triple Any
        (Same d)
        (require_outbox_activation_authority c p run_id)
        (λ a s. Same d s × (Delivered a × Waits a))
  unfolding require_outbox_activation_authority
  activation-Triple = Triple-next delivery-Triple λ a delivered.
      Triple-next (Triple-read d (λ u. first_row (λ i. str_eq i.id a.run_input_id) u.run_inputs))
        λ input input_eq. Triple-next (Triple-check _ _ (λ s h. tt)) λ _ waits.
          Triple-weaken (λ s h. h) (Triple-pure _)
            λ b s h. (
              h.0,
              subst (λ x. Delivered x × Waits x) (sym h.1)
                  (delivered, subst (λ x. awaits run_id x ≡ true) input_eq waits),
            )

  provider-Triple :
      (ids : List String)
      → Triple Any
          (Same d)
          (require_outbox_provider_authority c p run_id ids)
          (λ a s. Same d s × (Delivered a × (any_row (str_eq a.run_input_id) ids ≡ true)))
  unfolding require_outbox_provider_authority
  provider-Triple ids = Triple-next delivery-Triple λ a delivered.
      Triple-next (Triple-check _ _ (λ s h. tt)) λ _ included.
        Triple-weaken (λ s h. h) (Triple-pure _)
          λ b s h. (
            h.0,
            subst (λ x. Delivered x × (any_row (str_eq x.run_input_id) ids ≡ true)) (sym h.1)
                (delivered, included),
          )

-- An authority to start an Activation of a Run that is returned, on a queue of events: it rests on the
-- oldest pending event, which is the only one that the principal holds under the token, with a lease
-- that is live at the instant observed and ends at the one returned; the event speaks of the Run; the
-- input that its payload names is a Pending one of the Run; and nothing is written.
pub activation_authority-Delivers :
    (c : OutboxAuthority) (p : Principal) (run_id : String) (w w' : World)
    (ds ps : List OutboxEvent) (a : DeliveryAuthority)
    → IsQueue w.outbox_events ds ps
    → require_outbox_activation_authority c p run_id w ≡ returned a w'
    → (w'.db ≡ w.db)
      × (((e : OutboxEvent) × Delivers c p run_id w.outbox_events ps a e)
          × (awaits run_id (first_row (λ i. str_eq i.id a.run_input_id) w.run_inputs) ≡ true))
activation_authority-Delivers c p run_id w w' ds ps a q h =
    Triple-returned (activation-Triple c p run_id w.db ds ps q) w refl h

-- The same of an authority to deliver to a provider: the input that the payload names is one of those
-- that are delivered.
pub provider_authority-Delivers :
    (c : OutboxAuthority) (p : Principal) (run_id : String) (ids : List String) (w w' : World)
    (ds ps : List OutboxEvent) (a : DeliveryAuthority)
    → IsQueue w.outbox_events ds ps
    → require_outbox_provider_authority c p run_id ids w ≡ returned a w'
    → (w'.db ≡ w.db)
      × (((e : OutboxEvent) × Delivers c p run_id w.outbox_events ps a e)
          × (any_row (str_eq a.run_input_id) ids ≡ true))
provider_authority-Delivers c p run_id ids w w' ds ps a q h =
    Triple-returned (provider-Triple c p run_id w.db ds ps q ids) w refl h
