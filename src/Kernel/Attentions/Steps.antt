-- ===== src/Kernel/Attentions/Steps.antt =====
-- packages/kernel/src/attentions.ts: what the parts of the commands keep, where they keep a condition
-- on the rows.
use torsor.Prelude.{ℕ, String, Bool, Option, none, some, List, str_eq, update_rows}
use torsor.Kernel.Action.{pure}
use torsor.Kernel.Action.Triples.{Triple, Triple-modify, Triple-bind, Triple-if}
use torsor.Kernel.Rows.{Attention, DomainFence, Activation, Run, CausalLimits, Principal}
use torsor.Kernel.World.{World}
use torsor.Kernel.ReadOnly.{Any}
use torsor.Kernel.Guards.{require_kind}
use torsor.Kernel.Activations.Validity.{
  require_attention, require_activation, require_live_activation, require_run,
}
use torsor.Kernel.Activations.Actors.{require_agent_for_principal, named_activation}
use torsor.Kernel.Runs.Commands.{update_run}
use torsor.Kernel.Attentions.Rows.{update_attention, change_activations}
use torsor.Kernel.Attentions.Domains.{
  Superseded, supersede_previous, supersede_other, assert_attention_lease,
  is_attention_domain_lease_current, given_token,
}
use torsor.Kernel.Attentions.Commands.{report_superseded}
use torsor.Kernel.Attentions.Admission.{Source, provenance_of, source_of, admit_run_from_attention}
use torsor.Kernel.Attentions.Decisions.{require_attention_decision_context}
use torsor.Kernel.Attentions.Frames.{
  On, Frame-now, Frame-gets, Frame-or_throw, Frame-check, Frame-pure, Frame-find, Frame-event,
  Frame-history, Frame-marks, Frame-scope,
}

module _
    (Q : List Attention
      → List DomainFence
      → List Activation
      → List Run
      → Option CausalLimits
      → Type 0) where
  pub Step-lease :
      (a : Attention) (token : Option String)
      → Triple Any (On Q) (assert_attention_lease a token) (λ _. On Q)
  unfolding assert_attention_lease is_attention_domain_lease_current
  Step-lease a token =
      Triple-bind _ _ (Frame-or_throw Q (given_token token a.handler_lease_token) _) λ t.
        Triple-bind _ _ (Frame-check Q _ _) λ _. Triple-bind _ _ (Frame-now Q) λ at.
          Triple-bind _ _ (Frame-check Q _ _) λ _.
            Triple-bind _ _ (Triple-bind _ _ (Frame-gets Q _) λ fence. Frame-pure Q _)
              λ current. Frame-check Q _ _

  pub Step-context :
      (id : String) (revision : ℕ) (token : String) (p : Principal) (context : Option String)
      → Triple Any
          (On Q)
          (require_attention_decision_context id revision token p context)
          (λ _. On Q)
  unfolding require_attention_decision_context require_kind require_agent_for_principal
      require_attention require_live_activation require_activation
  Step-context id revision token p context = Triple-bind _ _ (Frame-check Q _ _) λ _.
      Triple-bind _ _ (Frame-find Q _ _) λ agent. Triple-bind _ _ (Frame-find Q _ _) λ a.
        Triple-bind _ _ (Frame-check Q _ _) λ _. Triple-bind _ _ (Frame-check Q _ _) λ _.
          Triple-bind _ _ (Frame-check Q _ _) λ _. Triple-bind _ _ (Step-lease a (some token)) λ _.
            Triple-bind _ _ (Frame-or_throw Q (named_activation context) _) λ i.
              Triple-bind _ _
                (Triple-bind _ _ (Frame-find Q _ _)
                  λ x. Triple-bind _ _ (Frame-check Q _ _) λ _. Frame-pure Q x)
                λ x.
                  Triple-bind _ _ (Frame-check Q _ _)
                    λ _. Triple-bind _ _ (Frame-scope Q x) λ _. Frame-pure Q _

  pub provenance-Step :
      (a : Attention) (s : Source) (parent : Option String)
      → Triple Any (On Q) (provenance_of a s parent) (λ _. On Q)
  unfolding provenance_of require_run
  provenance-Step a s none = Triple-bind _ _ (Frame-check Q _ _) λ _. Frame-pure Q _
  provenance-Step a s (some parent) = Triple-bind _ _ (Frame-check Q _ _) λ _.
      Triple-bind _ _ (Frame-find Q _ _)
        λ r. Triple-bind _ _ (Frame-check Q _ _) λ _. Frame-pure Q _

  pub Step-admit : (a : Attention) → Triple Any (On Q) (admit_run_from_attention a) (λ _. On Q)
  unfolding admit_run_from_attention source_of
  Step-admit a = Triple-bind _ _ (Frame-gets Q _) λ found.
      Triple-bind _ _ (Frame-or_throw Q found _) λ source.
        Triple-bind _ _ (provenance-Step a source source.message.caused_by_run_id) λ provenance.
          Triple-bind _ _ (Frame-gets Q _) λ limited.
            Triple-bind _ _ (Frame-or_throw Q limited _) λ limits.
              Triple-bind _ _ (Frame-gets Q _) λ count.
                Triple-bind _ _ (Frame-check Q _ _)
                  λ _. Triple-bind _ _ (Frame-check Q _ _) λ _. Frame-pure Q _

  pub Step-report :
      (s : Option Superseded) (id : String) (p : Principal) (correlation : String)
      → Triple Any (On Q) (report_superseded s id p correlation) (λ _. On Q)
  unfolding report_superseded
  Step-report none id p correlation = Frame-pure Q tt
  Step-report (some s) id p correlation =
      Triple-bind _ _ (Frame-event Q _ _) λ sequence. Frame-history Q _ _

-- a change of one table, from one condition to another
module _
    (P Q : List Attention
      → List DomainFence
      → List Activation
      → List Run
      → Option CausalLimits
      → Type 0) where
  pub Change-attention :
      (id : String) (f : Attention → Attention)
      → ((s : World)
          → On P s
          → Q
              (update_rows (λ a. str_eq a.id id) f s.attentions)
              s.fences
              s.activations
              s.runs
              s.causal_limits)
      → Triple Any (On P) (update_attention id f) (λ _. On Q)
  unfolding update_attention
  Change-attention id f k = Triple-modify _ {Q = λ _. On Q} k

  pub Change-activations :
      (test : Activation → Bool) (f : Activation → Activation)
      → ((s : World)
          → On P s
          → Q s.attentions s.fences (update_rows test f s.activations) s.runs s.causal_limits)
      → Triple Any (On P) (change_activations test f) (λ _. On Q)
  unfolding change_activations
  Change-activations test f k = Triple-bind _ _ (Frame-gets P _) λ changed.
      Triple-bind _ _ (Triple-modify _ {Q = λ _. On Q} k)
        λ _. Triple-bind _ _ (Frame-marks Q changed) λ _. Frame-pure Q changed

  pub Change-run :
      (id : String) (f : Run → Run)
      → ((s : World)
          → On P s
          → Q s.attentions s.fences s.activations
              (update_rows (λ r. str_eq r.id id) f s.runs)
              s.causal_limits)
      → Triple Any (On P) (update_run id f) (λ _. On Q)
  unfolding update_run
  Change-run id f k = Triple-modify _ {Q = λ _. On Q} k

-- a condition on the fences alone
module _ (F : List DomainFence → Type 0) where
  abbrev pub Fences :
      List Attention → List DomainFence → List Activation → List Run → Option CausalLimits → Type 0
  Fences attentions fences activations runs limits = F fences

  previous-Step :
      (f : DomainFence) (at : ℕ) → Triple Any (On Fences) (supersede_previous f at) (λ _. On Fences)
  unfolding supersede_previous require_attention
  previous-Step f at = Triple-bind _ _ (Frame-find Fences _ _) λ previous.
      Triple-bind _ _ (Frame-check Fences _ _) λ _.
        Triple-bind _ _ (Change-attention Fences Fences previous.id _ (λ s h. h)) λ _.
          Triple-bind _ _ (Change-activations Fences Fences _ _ (λ s h. h))
            λ changed. Frame-pure Fences _

  pub Step-supersede :
      (f : DomainFence) (a : Attention) (at : ℕ)
      → Triple Any (On Fences) (supersede_other f a at) (λ _. On Fences)
  unfolding supersede_other
  Step-supersede f a at =
      Triple-if (str_eq f.attention_id a.id) (pure none) _ (λ _. Frame-pure Fences none)
        (λ _. Triple-bind _ _ (previous-Step f at) λ s. Frame-pure Fences (some s))
