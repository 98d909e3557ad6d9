-- ===== src/Kernel/Attentions/Frames.antt =====
-- packages/kernel/src: the statements that leave Attentions, their domain fences, Activations, Runs
-- and the causal limits as they are.
use torsor.Prelude.{ℕ, String, Bool, Option, List}
use torsor.Kernel.Errors.{KernelError}
use torsor.Kernel.Action.{pure, gets, check, or_throw, for_each, ◌>>=◌}
use torsor.Kernel.Action.Triples.{
  Triple, Triple-pure, Triple-gets, Triple-or_throw, Triple-check, Triple-modify, Triple-bind,
  Triple-weaken, Triple-throws, Triple-throw, Triple-for_each,
}
use torsor.Kernel.Rows.{
  Attention, DomainFence, Activation, Run, CausalLimits, Json, Cause, for_run, for_attention,
}
use torsor.Kernel.World.{World, now, fresh}
use torsor.Kernel.ReadOnly.{Any}
use torsor.Kernel.Outbox.Rows.{enqueue_outbox}
use torsor.Kernel.Activations.Validity.{
  Scope, Validity, live, dead, require_run, require_attention, load_scope_of,
  load_activation_scope_state, require_live, assert_activation_scope_current,
}
use torsor.Kernel.Runs.Events.{
  EventInput, require_thread, emit_event, emit_thread_event, mark_activation_change,
}
use torsor.Kernel.Attentions.Rows.{record_attention_history}
use torsor.Kernel.Runs.Inputs.{create_run_input}

module _
    (Q : List Attention
      → List DomainFence
      → List Activation
      → List Run
      → Option CausalLimits
      → Type 0) where
  abbrev pub On : World → Type 0
  On s = Q s.attentions s.fences s.activations s.runs s.causal_limits

  pub Frame-now : Triple Any On now (λ _. On)
  unfolding now
  Frame-now = record { at = λ s h. h }

  pub Frame-fresh : (prefix : String) → Triple Any On (fresh prefix) (λ _. On)
  unfolding fresh
  Frame-fresh prefix = record { at = λ s h. h }

  pub Frame-gets : {A : Type 0} (f : World → A) → Triple Any On (gets f) (λ _. On)
  Frame-gets f = Triple-weaken (λ s h. h) (Triple-gets f) (λ a s h. h.0)

  pub Frame-or_throw :
      {A : Type 0} (x : Option A) (e : KernelError) → Triple Any On (or_throw x e) (λ _. On)
  Frame-or_throw x e = Triple-weaken (λ s h. h) (Triple-or_throw x e (λ s h. tt)) (λ a s h. h.0)

  pub Frame-check : (b : Bool) (e : KernelError) → Triple Any On (check b e) (λ _. On)
  Frame-check b e = Triple-weaken (λ s h. h) (Triple-check b e (λ s h. tt)) (λ a s h. h.0)

  pub Frame-pure : {A : Type 0} (a : A) → Triple Any On (pure a) (λ _. On)
  Frame-pure a = Triple-weaken (λ s h. h) (Triple-pure a) (λ b s h. h.0)

  pub Frame-find :
      {A : Type 0} (f : World → Option A) (e : KernelError)
      → Triple Any On (gets f >>= λ found. or_throw found e) (λ _. On)
  Frame-find f e = Triple-bind _ _ (Frame-gets f) (λ found. Frame-or_throw found e)

  pub Frame-event : (e : EventInput) (c : Option ℕ) → Triple Any On (emit_event e c) (λ _. On)
  unfolding emit_event
  Frame-event e c = Triple-bind _ _ (Frame-fresh _) λ id.
      Triple-bind _ _ Frame-now
        λ at. Triple-bind _ _ (Triple-modify _ {Q = λ _. On} (λ s h. h)) λ _. Frame-gets _

  pub Frame-thread_event : (e : EventInput) → Triple Any On (emit_thread_event e) (λ _. On)
  unfolding emit_thread_event require_thread
  Frame-thread_event e = Triple-bind _ _ (Frame-find _ _) λ thread.
      Triple-bind _ _ (Triple-modify _ {Q = λ _. On} (λ s h. h))
        λ _. Triple-bind _ _ (Frame-event _ _) λ _. Frame-pure _

  pub Frame-enqueue :
      (topic type id : String) (payload : Json)
      → Triple Any On (enqueue_outbox topic type id payload) (λ _. On)
  unfolding enqueue_outbox
  Frame-enqueue topic type id payload =
      Triple-bind _ _ (Frame-fresh _)
        λ i. Triple-bind _ _ Frame-now λ at. Triple-modify _ {Q = λ _. On} (λ s h. h)

  pub Frame-history :
      (id : String) (sequence : ℕ) → Triple Any On (record_attention_history id sequence) (λ _. On)
  unfolding record_attention_history
  Frame-history id sequence = Triple-modify _ {Q = λ _. On} (λ s h. h)

  pub Frame-marks :
      (xs : List Activation) → Triple Any On (for_each mark_activation_change xs) (λ _. On)
  unfolding mark_activation_change
  Frame-marks xs =
      Triple-throws (λ s h. tt)
        (Triple-for_each _ xs (λ a. Triple-modify _ {Q = λ _. On} (λ s h. h)))

  pub Frame-input :
      (run : Run) (m p : String) (a t : Option String)
      → Triple Any On (create_run_input run m p a t) (λ _. On)
  unfolding create_run_input
  Frame-input run m p a t = Triple-bind _ _ (Frame-fresh _) λ id.
      Triple-bind _ _ Frame-now
        λ at. Triple-bind _ _ (Triple-modify _ {Q = λ _. On} (λ s h. h)) λ _. Frame-pure _

  scope-Frame : (cause : Cause) → Triple Any On (load_scope_of cause) (λ _. On)
  unfolding load_scope_of require_run require_attention
  scope-Frame (for_run id generation) = Triple-bind _ _ (Frame-find _ _) λ run. Frame-pure _
  scope-Frame (for_attention id token) =
      Triple-bind _ _ (Frame-find _ _)
        λ attention. Triple-bind _ _ (Frame-gets _) λ fence. Frame-pure _

  live-Frame : (scope : Scope) (v : Validity) → Triple Any On (require_live scope v) (λ _. On)
  live-Frame scope live = Frame-pure tt
  live-Frame scope (dead reason) = Triple-throw _ (λ s h. tt)

  pub Frame-scope : (a : Activation) → Triple Any On (assert_activation_scope_current a) (λ _. On)
  unfolding assert_activation_scope_current load_activation_scope_state
  Frame-scope a =
      Triple-bind _ _ (scope-Frame a.cause)
        λ scope. Triple-bind _ _ Frame-now λ at. live-Frame scope _
