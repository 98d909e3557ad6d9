-- ===== src/Kernel/Frames.antt =====
-- packages/kernel/src: what a condition on the database survives. A condition that does not read the
-- clock, the fresh names, the events, the outbox and the marks for projections is kept by the
-- statements that check, announce and enqueue.
use torsor.Prelude.{ℕ, String, Bool, false, Option, List}
use torsor.Kernel.Errors.{KernelError}
use torsor.Kernel.Action.{pure, gets, check, or_throw, for_each, ◌>>=◌}
use torsor.Kernel.Action.Triples.{
  Triple, Triple-pure, Triple-gets, Triple-or_throw, Triple-check, Triple-modify, Triple-bind,
  Triple-weaken, Triple-throw, Triple-if, Triple-loop,
}
use torsor.Kernel.Rows.{
  Principal, is_runtime, Run, Attention, Activation, Cause, for_run, for_attention, OutboxEvent,
  PublicEvent, Thread, Json,
}
use torsor.Kernel.World.{World, now, fresh}
use torsor.Kernel.ReadOnly.{Any}
use torsor.Kernel.Guards.{require_kind, require_outbox_event}
use torsor.Kernel.Outbox.Rows.{enqueue_outbox}
use torsor.Kernel.Outbox.Delivery.{
  OutboxAuthority, payload_run_input, require_outbox_delivery_authority,
  require_outbox_activation_authority, require_outbox_provider_authority,
}
use torsor.Kernel.Activations.Validity.{
  Scope, Validity, live, dead, require_run, require_attention, require_activation,
  require_live_activation, load_scope_of, load_activation_scope_state, require_live,
  assert_activation_scope_current, is_for_run, is_current_run_activation,
}
use torsor.Kernel.Activations.Actors.{
  require_mutable_run, require_agent_for_principal, named_activation, authorize_activation_actor,
}
use torsor.Kernel.Runs.Events.{
  EventInput, require_thread, emit_event, emit_thread_event, mark_activation_change,
}
use torsor.Kernel.Attentions.Domains.{
  assert_attention_lease, is_attention_domain_lease_current, given_token,
}
use torsor.Kernel.Messages.Scope.{place_of_cause, activation_scope}

pub record Stable (On : World → Type 0) : Type 0 where
  pub reads : (w : World) (n : ℕ) → On w → On (record w { reads = n })
  pub issued : (w : World) (n : ℕ) → On w → On (record w { issued = n })
  pub events :
      (w : World) (xs : List PublicEvent)
      → On w
      → On (record w { db = record w.db { public_events = xs } })
  pub outbox :
      (w : World) (xs : List OutboxEvent)
      → On w
      → On (record w { db = record w.db { outbox_events = xs } })
  pub marks :
      (w : World) (xs : List String)
      → On w
      → On (record w { db = record w.db { projection_activation_changes = xs } })

module _ (On : World → Type 0) (stable : Stable On) where
  pub Kept-now : Triple Any On now (λ _. On)
  unfolding now
  Kept-now = record { at = λ w h. stable.reads w _ h }

  pub Kept-fresh : (prefix : String) → Triple Any On (fresh prefix) (λ _. On)
  unfolding fresh
  Kept-fresh prefix = record { at = λ w h. stable.issued w _ h }

  pub Kept-gets : {A : Type 0} (f : World → A) → Triple Any On (gets f) (λ _. On)
  Kept-gets f = Triple-weaken (λ w h. h) (Triple-gets f) (λ a w h. h.0)

  pub Kept-or_throw :
      {A : Type 0} (x : Option A) (e : KernelError) → Triple Any On (or_throw x e) (λ _. On)
  Kept-or_throw x e = Triple-weaken (λ w h. h) (Triple-or_throw x e (λ w h. tt)) (λ a w h. h.0)

  pub Kept-check : (b : Bool) (e : KernelError) → Triple Any On (check b e) (λ _. On)
  Kept-check b e = Triple-weaken (λ w h. h) (Triple-check b e (λ w h. tt)) (λ a w h. h.0)

  pub Kept-pure : {A : Type 0} (a : A) → Triple Any On (pure a) (λ _. On)
  Kept-pure a = Triple-weaken (λ w h. h) (Triple-pure a) (λ b w h. h.0)

  pub Kept-find :
      {A : Type 0} (f : World → Option A) (e : KernelError)
      → Triple Any On (gets f >>= λ found. or_throw found e) (λ _. On)
  Kept-find f e = Triple-bind _ _ (Kept-gets f) (λ found. Kept-or_throw found e)

  pub Kept-event : (e : EventInput) (c : Option ℕ) → Triple Any On (emit_event e c) (λ _. On)
  unfolding emit_event
  Kept-event e c = Triple-bind _ _ (Kept-fresh _) λ id. Triple-bind _ _ Kept-now λ at.
      Triple-bind _ _ (Triple-modify _ {Q = λ _. On} (λ w h. stable.events w _ h)) λ _. Kept-gets _

  pub Kept-thread_event :
      (e : EventInput)
      → ((w : World) (xs : List Thread)
          → On w
          → On (record w { db = record w.db { threads = xs } }))
      → Triple Any On (emit_thread_event e) (λ _. On)
  unfolding emit_thread_event require_thread
  Kept-thread_event e kept = Triple-bind _ _ (Kept-find _ _) λ thread.
      Triple-bind _ _ (Triple-modify _ {Q = λ _. On} (λ w h. kept w _ h))
        λ _. Triple-bind _ _ (Kept-event _ _) λ _. Kept-pure _

  pub Kept-enqueue :
      (topic type id : String) (payload : Json)
      → Triple Any On (enqueue_outbox topic type id payload) (λ _. On)
  unfolding enqueue_outbox
  Kept-enqueue topic type id payload =
      Triple-bind _ _ (Kept-fresh _) λ i.
        Triple-bind _ _ Kept-now λ at. Triple-modify _ {Q = λ _. On} (λ w h. stable.outbox w _ h)

  pub Kept-marks :
      (xs : List Activation) → Triple Any On (for_each mark_activation_change xs) (λ _. On)
  unfolding mark_activation_change
  Kept-marks xs = Triple-loop _ xs (λ a. Triple-modify _ {Q = λ _. On} (λ w h. stable.marks w _ h))

  pub Kept-mutable_run :
      (id : String) (revision : Option ℕ)
      → Triple Any On (require_mutable_run id revision) (λ _. On)
  unfolding require_mutable_run require_run
  Kept-mutable_run id revision =
      Triple-bind _ _ (Kept-find _ _) λ run.
        Triple-bind _ _ (Kept-check _ _) λ _. Triple-bind _ _ (Kept-check _ _) λ _. Kept-pure _

  pub Kept-live : (id : String) → Triple Any On (require_live_activation id) (λ _. On)
  unfolding require_live_activation require_activation
  Kept-live id =
      Triple-bind _ _ (Kept-find _ _) λ a. Triple-bind _ _ (Kept-check _ _) λ _. Kept-pure _

  loaded-Kept : (cause : Cause) → Triple Any On (load_scope_of cause) (λ _. On)
  unfolding load_scope_of require_run require_attention
  loaded-Kept (for_run id generation) = Triple-bind _ _ (Kept-find _ _) λ run. Kept-pure _
  loaded-Kept (for_attention id token) =
      Triple-bind _ _ (Kept-find _ _)
        λ attention. Triple-bind _ _ (Kept-gets _) λ fence. Kept-pure _

  live-Kept : (scope : Scope) (v : Validity) → Triple Any On (require_live scope v) (λ _. On)
  live-Kept scope live = Kept-pure tt
  live-Kept scope (dead reason) = Triple-throw _ (λ w h. tt)

  pub Kept-scope : (a : Activation) → Triple Any On (assert_activation_scope_current a) (λ _. On)
  unfolding assert_activation_scope_current load_activation_scope_state
  Kept-scope a =
      Triple-bind _ _ (loaded-Kept a.cause)
        λ scope. Triple-bind _ _ Kept-now λ at. live-Kept scope _

  place-Kept : (cause : Cause) → Triple Any On (place_of_cause cause) (λ _. On)
  unfolding place_of_cause require_run require_attention
  place-Kept (for_run id generation) = Triple-bind _ _ (Kept-find _ _) λ run. Kept-pure _
  place-Kept (for_attention id token) = Triple-bind _ _ (Kept-find _ _) λ a. Kept-pure _

  pub Kept-place : (a : Activation) → Triple Any On (activation_scope a) (λ _. On)
  unfolding activation_scope
  Kept-place a = place-Kept a.cause

  pub Kept-actor :
      (p : Principal) (context : Option String) (a : Activation) (finished : Bool)
      → Triple Any On (authorize_activation_actor p context a finished) (λ _. On)
  unfolding authorize_activation_actor require_agent_for_principal
  Kept-actor p context a finished = Triple-bind _ _ (Kept-check _ _) λ _.
      Triple-if (is_runtime p.kind) (pure tt) _ (λ _. Kept-pure tt)
        λ _. Triple-bind _ _ (Kept-check _ _) λ _. Triple-bind _ _ (Kept-find _ _) λ agent.
          Triple-bind _ _ (Kept-check _ _)
            λ _. Triple-bind _ _ (Kept-or_throw (named_activation context) _) λ id. Kept-check _ _

  pub Kept-current :
      (a : Activation) (run : Run) → Triple Any On (is_current_run_activation a run) (λ _. On)
  unfolding is_current_run_activation
  Kept-current a run =
      Triple-if (is_for_run a run.id) _ (pure false)
        (λ _. Triple-bind _ _ Kept-now λ at. Kept-pure _) (λ _. Kept-pure false)

  delivery-Kept :
      (c : OutboxAuthority) (p : Principal) (run_id : String)
      → Triple Any On (require_outbox_delivery_authority c p run_id) (λ _. On)
  unfolding require_outbox_delivery_authority require_kind require_outbox_event
  delivery-Kept c p run_id = Triple-bind _ _ (Kept-check _ _) λ _.
      Triple-bind _ _ (Kept-check _ _) λ _. Triple-bind _ _ (Kept-check _ _) λ _.
        Triple-bind _ _ (Kept-find _ _) λ event. Triple-bind _ _ Kept-now λ observed.
          Triple-bind _ _ (Kept-check _ _) λ _. Triple-bind _ _ (Kept-check _ _) λ _.
            Triple-bind _ _ (Kept-gets _) λ leased. Triple-bind _ _ (Kept-check _ _) λ _.
              Triple-bind _ _ (Kept-gets _) λ frontier. Triple-bind _ _ (Kept-check _ _) λ _.
                Triple-bind _ _ (Kept-or_throw (payload_run_input event.payload) _) λ input.
                  Triple-bind _ _ (Kept-or_throw event.lease_expires_at _) λ expiry. Kept-pure _

  pub Kept-activation_authority :
      (c : OutboxAuthority) (p : Principal) (run_id : String)
      → Triple Any On (require_outbox_activation_authority c p run_id) (λ _. On)
  unfolding require_outbox_activation_authority
  Kept-activation_authority c p run_id = Triple-bind _ _ (delivery-Kept c p run_id) λ authority.
      Triple-bind _ _ (Kept-gets _) λ input. Triple-bind _ _ (Kept-check _ _) λ _. Kept-pure _

  pub Kept-provider_authority :
      (c : OutboxAuthority) (p : Principal) (run_id : String) (ids : List String)
      → Triple Any On (require_outbox_provider_authority c p run_id ids) (λ _. On)
  unfolding require_outbox_provider_authority
  Kept-provider_authority c p run_id ids =
      Triple-bind _ _ (delivery-Kept c p run_id)
        λ authority. Triple-bind _ _ (Kept-check _ _) λ _. Kept-pure _

  pub Kept-lease :
      (a : Attention) (token : Option String)
      → Triple Any On (assert_attention_lease a token) (λ _. On)
  unfolding assert_attention_lease is_attention_domain_lease_current
  Kept-lease a token =
      Triple-bind _ _ (Kept-or_throw (given_token token a.handler_lease_token) _) λ t.
        Triple-bind _ _ (Kept-check _ _) λ _. Triple-bind _ _ Kept-now λ at.
          Triple-bind _ _ (Kept-check _ _) λ _.
            Triple-bind _ _ (Triple-bind _ _ (Kept-gets _) λ fence. Kept-pure _)
              λ current. Kept-check _ _
