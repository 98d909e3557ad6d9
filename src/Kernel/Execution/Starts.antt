-- ===== src/Kernel/Execution/Starts.antt =====
-- packages/kernel/src/execution.ts: the start and the end of an Activation keep a condition.
use torsor.Prelude.{ℕ, ◌+◌, String, refl, false, Option, none, some, given}
use torsor.Kernel.Action.{pure}
use torsor.Kernel.Action.Triples.{Triple, Triple-modify, Triple-bind, Triple-weaken, Triple-if}
use torsor.Kernel.Rows.{
  Principal, is_agent, Attention, Run, Activation, ActivationOutcome, Cause, for_run,
}
use torsor.Kernel.World.{World}
use torsor.Kernel.ReadOnly.{Any}
use torsor.Kernel.Guards.{require_kind}
use torsor.Kernel.Activations.Validity.{require_attention, require_activation}
use torsor.Kernel.Runs.Events.{revoke_run_activations}
use torsor.Kernel.Runs.Commands.{update_run}
use torsor.Kernel.Attentions.Rows.{require_agent, change_activations}
use torsor.Kernel.Frames.{
  Kept-now, Kept-fresh, Kept-gets, Kept-or_throw, Kept-check, Kept-pure, Kept-find, Kept-event,
  Kept-thread_event, Kept-enqueue, Kept-marks, Kept-mutable_run, Kept-scope, Kept-place, Kept-actor,
  Kept-activation_authority, Kept-lease,
}
use torsor.Kernel.Execution.Activations.{
  StartActivation, Start, Target, run_target, attention_target, target_of, begin_activation,
  is_waiting, resume_run, regenerate_run, advance_run, start_for_run, start_for_attention,
  begin_or_repeat, start_for, start_activation, finish_activation,
}
use torsor.Kernel.Execution.Invariants.{Invariant}

module _ (On : World → Type 0) (Ready : Cause → World → Type 0) (i : Invariant On Ready) where
  begin-Triple :
      (start : Start) (p : Principal) (at : ℕ) (correlation : String)
      → Triple Any (Ready start.cause) (begin_activation start p at correlation) (λ _. On)
  unfolding begin_activation
  begin-Triple start p at correlation =
      Triple-bind _ _ (Kept-fresh (Ready start.cause) (i.ready start.cause) _) λ id.
        Triple-bind _ _ (Triple-modify _ {Q = λ _. On} (λ w h. i.begin id at start w h)) λ _.
          Triple-bind _ _ (Triple-modify _ {Q = λ _. On} (λ w h. i.supplied w _ h))
            λ _. Triple-bind _ _ (Kept-event On i.kept _ _) λ sequence. Kept-pure On i.kept _

  advance-Triple :
      (c : Cause) (run : Run) (at : ℕ) (p : Principal) (correlation : String)
      → Triple Any (Ready c) (advance_run run at p correlation) (λ _. Ready c)
  unfolding advance_run resume_run regenerate_run update_run
  advance-Triple c run at p correlation =
      let R = Ready c in
      let s = i.ready c in
      Triple-if (is_waiting run.state) (resume_run run at p correlation) (regenerate_run run at)
        (λ _.
          Triple-bind _ _
            (Triple-modify _ {Q = λ _. R}
              (λ w h. i.change_run c run.id _ (λ r. refl) (λ r. refl) w h))
            λ _.
              Triple-bind _ _ (Kept-thread_event R s _ (i.threads c))
                λ cursor. Triple-bind _ _ (Kept-enqueue R s _ _ _ _) λ _. Kept-pure R s _)
        (λ _.
          Triple-bind _ _
            (Triple-modify _ {Q = λ _. R}
              (λ w h. i.change_run c run.id _ (λ r. refl) (λ r. refl) w h))
            λ _. Kept-pure R s _)

  pub revoke-Triple :
      (id reason : String) (at generation : ℕ)
      → Triple Any On (revoke_run_activations id reason at) (λ _. Ready (for_run id generation))
  unfolding revoke_run_activations
  revoke-Triple id reason at generation =
      let R = Ready (for_run id generation) in
      Triple-bind _ _ (Kept-gets On i.kept _) λ changed.
        Triple-bind _ _
          (Triple-modify _ {Q = λ _. R} (λ w h. i.supersede_rows id reason at generation w h))
          λ _. Kept-marks R (i.ready (for_run id generation)) changed

  run-Triple :
      (c : StartActivation) (id : String) (p : Principal) (at expires : ℕ) (correlation : String)
      → Triple Any On (start_for_run c id p at expires correlation) (λ _. On)
  unfolding start_for_run require_agent
  run-Triple c id p at expires correlation =
      Triple-bind _ _ (Kept-or_throw On i.kept c.expected_run_revision _) λ expected.
        Triple-bind _ _ (Kept-mutable_run On i.kept id (some expected)) λ run.
          Triple-bind _ _ (Kept-activation_authority On i.kept c.outbox p id) λ authority.
            Triple-bind _ _ (Kept-find On i.kept _ _) λ agent.
              Triple-bind _ _
                (revoke-Triple id "superseded_activation" at (run.activation_generation + 1))
                λ _.
                  Triple-bind _ _ (advance-Triple _ run at p correlation)
                    λ revision. begin-Triple _ p at correlation

  repeat-Triple :
      (x : Option Activation) (a : Attention) (token : String) (p : Principal) (at expires : ℕ)
      (correlation : String)
      → Triple Any On (begin_or_repeat x a token p at expires correlation) (λ _. On)
  unfolding begin_or_repeat require_agent
  repeat-Triple (some existing) a token p at expires correlation = Kept-pure On i.kept _
  repeat-Triple none a token p at expires correlation =
      Triple-bind _ _ (Kept-find On i.kept _ _) λ agent.
        Triple-weaken (λ w h. i.attend a.id token w h) (begin-Triple _ p at correlation)
          (λ r w h. h)

  attention-Triple :
      (c : StartActivation) (id : String) (p : Principal) (at expires : ℕ) (correlation : String)
      → Triple Any On (start_for_attention c id p at expires correlation) (λ _. On)
  unfolding start_for_attention require_attention
  attention-Triple c id p at expires correlation =
      Triple-bind _ _ (Kept-find On i.kept _ _) λ attention.
        Triple-bind _ _ (Kept-check On i.kept _ _) λ _.
          Triple-bind _ _ (Kept-lease On i.kept attention c.handler_lease_token) λ _.
            Triple-bind _ _ (Kept-or_throw On i.kept c.handler_lease_token _) λ token.
              Triple-bind _ _ (Kept-gets On i.kept _)
                λ existing. repeat-Triple existing attention token p at expires correlation

  target-Triple :
      (t : Target) (c : StartActivation) (p : Principal) (at expires : ℕ) (correlation : String)
      → Triple Any On (start_for t c p at expires correlation) (λ _. On)
  unfolding start_for
  target-Triple (run_target id) c p at expires correlation =
      run-Triple c id p at expires correlation
  target-Triple (attention_target id) c p at expires correlation =
      attention-Triple c id p at expires correlation

  pub start_activation-Kept :
      (c : StartActivation) (p : Principal) (correlation : String)
      → Triple Any On (start_activation c p correlation) (λ _. On)
  unfolding start_activation require_kind
  start_activation-Kept c p correlation = Triple-bind _ _ (Kept-check On i.kept _ _) λ _.
      Triple-bind _ _
        (Kept-or_throw On i.kept (target_of (given c.run_id) (given c.attention_id)) _)
        λ target.
          Triple-bind _ _ (Triple-bind _ _ (Kept-check On i.kept _ _) λ _. Kept-pure On i.kept _)
            λ duration.
              Triple-bind _ _ (Kept-now On i.kept)
                λ at. target-Triple target c p at (at + duration) correlation

  pub finish_activation-Kept :
      (id : String) (outcome : ActivationOutcome) (detail : Option String) (p : Principal)
      (context : Option String) (correlation : String)
      → Triple Any On (finish_activation id outcome detail p context correlation) (λ _. On)
  unfolding finish_activation change_activations require_activation
  finish_activation-Kept id outcome detail p context correlation =
      Triple-bind _ _ (Kept-find On i.kept _ _) λ a.
        Triple-bind _ _ (Kept-actor On i.kept p context a false) λ _.
          Triple-bind _ _
            (Triple-if (is_agent p.kind) _ (pure tt) (λ _. Kept-scope On i.kept a)
              (λ _. Kept-pure On i.kept tt))
            λ _. Triple-bind _ _ (Kept-check On i.kept _ _) λ _.
              Triple-bind _ _ (Kept-now On i.kept) λ at.
                Triple-bind _ _
                  (Triple-bind _ _ (Kept-gets On i.kept _) λ changed.
                    Triple-bind _ _
                      (Triple-modify _ {Q = λ _. On} (λ w h. i.finished id at outcome detail w h))
                      λ _.
                        Triple-bind _ _ (Kept-marks On i.kept changed)
                          λ _. Kept-pure On i.kept changed)
                  λ changed. Triple-bind _ _ (Kept-place On i.kept a) λ place.
                    Triple-bind _ _ (Kept-event On i.kept _ _) λ sequence. Kept-pure On i.kept _
