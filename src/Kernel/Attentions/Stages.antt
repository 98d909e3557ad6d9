-- ===== src/Kernel/Attentions/Stages.antt =====
-- packages/kernel/src/attentions.ts: the decisions go through stages, each with its condition on the
-- rows: the Attention is under decision, its Activation is finished, it is closed.
use torsor.Prelude.{ℕ, String, ◌≡◌, refl, Option, none, some, List, str_eq, update_rows}
use torsor.Kernel.Action.Triples.{Triple, Triple-bind, Triple-weaken}
use torsor.Kernel.Rows.{
  Attention, AttentionStatus, resolved, ignored, DomainFence, Activation, Run, CausalLimits,
  Principal,
}
use torsor.Kernel.World.{World}
use torsor.Kernel.ReadOnly.{Any}
use torsor.Kernel.Activations.Validity.{require_run}
use torsor.Kernel.Attentions.Admission.{Admission, admit_run_from_attention}
use torsor.Kernel.Attentions.Decisions.{
  Decider, require_attention_decision_context, finish_attention_activation, close_attention,
  ignore_attention,
}
use torsor.Kernel.Attentions.Resolutions.{
  insert_run, new_run, create_run_at, continue_run_at, resolve_attention_with_run,
  resolve_attention_with_existing_run,
}
use torsor.Kernel.Attentions.Frames.{
  On, Frame-now, Frame-fresh, Frame-check, Frame-pure, Frame-find, Frame-event, Frame-thread_event,
  Frame-enqueue, Frame-history, Frame-input,
}
use torsor.Kernel.Attentions.Steps.{Change-run}

abbrev pub Rows : Type 1
Rows = List Attention → List DomainFence → List Activation → List Run → Option CausalLimits → Type 0

-- An update of one Run that keeps its state, root and depth is no concern of the condition.
abbrev pub KeepsRuns : Rows → Type 0
KeepsRuns P =
    (id : String) (f : Run → Run)
    → ((r : Run) → (f r).state ≡ r.state)
    → ((r : Run) → (f r).causal_root_id ≡ r.causal_root_id)
    → ((r : Run) → (f r).delegation_depth ≡ r.delegation_depth)
    → (s : World) → On P s
    → P s.attentions s.fences s.activations (update_rows (λ r. str_eq r.id id) f s.runs)
        s.causal_limits

module _ (Before : World → Type 0) (P M : Decider → Rows) (Q : Decider → AttentionStatus → Rows)
    (A : Decider → Admission → Rows) (id : String) (revision : ℕ) (token : String) (p : Principal)
    (context : Option String)
    (begin : Triple Any Before
      (require_attention_decision_context id revision token p context)
      (λ d. On (P d)))
    (finish : (d : Decider) (at : ℕ) (reason : String)
      → Triple Any
          (On (P d))
          (finish_attention_activation d.activation.id at reason)
          (λ _. On (M d)))
    (close : (d : Decider) (status : AttentionStatus) (outcome : String) (run_id : Option String)
        (at : ℕ)
      → Triple Any
          (On (M d))
          (close_attention d status outcome run_id p at)
          (λ _. On (Q d status))) where
  pub Stage-ignore :
      (reason correlation : String)
      → Triple Any Before
          (ignore_attention id revision token reason p context correlation)
          (λ _ s. (d : Decider) × On (Q d ignored) s)
  unfolding ignore_attention
  Stage-ignore reason correlation = Triple-bind _ _ begin λ d.
      Triple-bind _ _ (Frame-check (P d) _ _) λ _. Triple-bind _ _ (Frame-now (P d)) λ at.
        Triple-bind _ _ (finish d at "attention_ignored") λ _.
          Triple-bind _ _ (close d ignored "Ignored" none at) λ _.
            Triple-bind _ _ (Frame-event (Q d ignored) _ _) λ sequence.
              Triple-bind _ _ (Frame-history (Q d ignored) _ _)
                λ _. Triple-weaken (λ s h. h) (Frame-pure (Q d ignored) _) (λ r s h. (d, h))

  module _ (keep : (d : Decider) → KeepsRuns (P d)) (keep_M : (d : Decider) → KeepsRuns (M d)) where
    pub Stage-create :
        ((d : Decider)
          → Triple Any (On (P d)) (admit_run_from_attention d.attention) (λ a. On (A d a)))
        → ((d : Decider) (a : Admission) (run_id : String) (at : ℕ)
            → Triple Any (On (A d a)) (insert_run (new_run run_id d a at)) (λ _. On (P d)))
        → (correlation : String)
        → Triple Any Before
            (resolve_attention_with_run id revision token p context correlation)
            (λ _ s. (d : Decider) × On (Q d resolved) s)
    unfolding resolve_attention_with_run create_run_at require_run
    Stage-create admit insert correlation = Triple-bind _ _ begin λ d.
        Triple-bind _ _ (admit d) λ a. Triple-bind _ _ (Frame-fresh (A d a) _) λ run_id.
          Triple-bind _ _ (Frame-now (A d a)) λ at. Triple-bind _ _ (insert d a run_id at) λ _.
            Triple-bind _ _ (Frame-find (P d) _ _) λ run.
              Triple-bind _ _ (Frame-input (P d) run _ _ _ _) λ input.
                Triple-bind _ _ (finish d at "attention_resolved") λ _.
                  Triple-bind _ _
                    (Change-run (M d) (M d) run_id _
                      (keep_M d run_id _ (λ r. refl) (λ r. refl) (λ r. refl)))
                    λ _. Triple-bind _ _ (close d resolved "RunCreated" (some run_id) at) λ _.
                      Triple-bind _ _ (Frame-thread_event (Q d resolved) _) λ cursor.
                        Triple-bind _ _ (Frame-event (Q d resolved) _ _) λ sequence.
                          Triple-bind _ _ (Frame-history (Q d resolved) _ _) λ _.
                            Triple-bind _ _ (Frame-enqueue (Q d resolved) _ _ _ _) λ _.
                              Triple-weaken (λ s h. h) (Frame-pure (Q d resolved) _)
                                (λ r s h. (d, h))

    pub Stage-continue :
        (run_id : String) (run_revision : ℕ) (correlation : String)
        → Triple Any Before
            (resolve_attention_with_existing_run id revision token run_id run_revision p context
              correlation)
            (λ _ s. (d : Decider) × On (Q d resolved) s)
    unfolding resolve_attention_with_existing_run continue_run_at require_run
    Stage-continue run_id run_revision correlation = Triple-bind _ _ begin λ d.
        Triple-bind _ _ (Frame-find (P d) _ _) λ run. Triple-bind _ _ (Frame-check (P d) _ _) λ _.
          Triple-bind _ _ (Frame-check (P d) _ _) λ _. Triple-bind _ _ (Frame-check (P d) _ _) λ _.
            Triple-bind _ _ (Frame-check (P d) _ _) λ _. Triple-bind _ _ (Frame-now (P d)) λ at.
              Triple-bind _ _ (Frame-input (P d) run _ _ _ _) λ input.
                Triple-bind _ _
                  (Change-run (P d) (P d) run.id _
                    (keep d run.id _ (λ r. refl) (λ r. refl) (λ r. refl)))
                  λ _. Triple-bind _ _ (finish d at "attention_resolved_with_existing_run") λ _.
                    Triple-bind _ _ (close d resolved "ExistingRunContinued" (some run.id) at) λ _.
                      Triple-bind _ _ (Frame-thread_event (Q d resolved) _) λ cursor.
                        Triple-bind _ _ (Frame-event (Q d resolved) _ _) λ sequence.
                          Triple-bind _ _ (Frame-history (Q d resolved) _ _) λ _.
                            Triple-bind _ _ (Frame-enqueue (Q d resolved) _ _ _ _) λ _.
                              Triple-weaken (λ s h. h) (Frame-pure (Q d resolved) _)
                                (λ r s h. (d, h))
