-- ===== src/Kernel/Runs/Completed.antt =====
-- packages/kernel/src/runs.ts: what a completed Run leaves behind.
use torsor.Prelude.{
  ℕ, ◌+◌, String, ◌≡◌, refl, ap, subst, ◌∙◌, Bool, true, false, not, ◌&&◌, ◌||◌, Option, none, some,
  List, [], ◌∷◌, given, All, Bool-cases, inl, inr, arith, is_none, first_row, any_row, ltb,
}
use torsor.Kernel.Action.{returned, pure}
use torsor.Kernel.Action.Triples.{
  Triple, Triple-gets, Triple-check, Triple-modify, Triple-bind, Triple-weaken, Triple-returned,
  Triple-if, Triple-loop,
}
use torsor.Kernel.Rows.{
  Principal, Run, RunInput, Activation, completed, is_pending, is_terminal_run_state,
}
use torsor.Kernel.World.{World}
use torsor.Kernel.Results.{CommandResult}
use torsor.Kernel.ReadOnly.{Any}
use torsor.Kernel.Activations.Validity.{is_for_run}
use torsor.Kernel.Runs.Events.{
  is_revocable, revoke_activation, revoke_run_activations, require_thread,
}
use torsor.Kernel.Runs.Commands.{is_run, is_pending_of, update_run}
use torsor.Kernel.Runs.Supersession.{Edge}
use torsor.Kernel.Runs.Completion.{
  CompletionException, FinalReply, CompleteRun, is_superseded, is_input, validate_disposition,
  supersede, apply_exception, apply_exceptions, update_input, dispose_input, dispose_inputs,
  publish_final_reply, complete, complete_run,
}
use torsor.Kernel.Runs.Refused.{Refuses, Terminal-Refuses}
use torsor.Kernel.Runs.Ended.{
  On, and_false, update_rows-All, first_row-update, Triple-now-On, Triple-gets-On, Triple-row-On,
  Triple-event-On, Triple-enqueue-On, Triple-capacity-On, Triple-marks-On,
}
use torsor.Kernel.Runs.Closed.{
  run-Triple, activation-Triple, Triple-check-On, Triple-find-On, Triple-value-On,
}
use torsor.Kernel.Runs.Publishing.{Triple-message-On, Triple-cursor-On}

-- The Run is stored as Completed; none of its inputs is Pending; none of its Activations that have
-- not finished is left without a revocation.
pub record Completes (id : String) (runs : List Run) (inputs : List RunInput)
    (activations : List Activation) : Type 0 where
  pub settled : (r : Run) × ((first_row (is_run id) runs ≡ some r) × (r.state ≡ completed))
  pub disposed : All (λ i. is_pending_of id i ≡ false) inputs
  pub revoked : All (λ a. is_revocable id a ≡ false) activations

abbrev pub CompletedIn : String → World → Type 0
CompletedIn id s = Completes id s.runs s.run_inputs s.activations

none_pending :
    (id : String) (inputs : List RunInput)
    → any_row (is_pending_of id) inputs ≡ false
    → All (λ i. is_pending_of id i ≡ false) inputs
unfolding any_row
none_pending id [] h = tt
none_pending id (i ∷ is) h = elim (Bool-cases (is_pending_of id i)) [
  | inl e ↦ absurd (clash e)
  | inr e ↦ (e, none_pending id is (rest e))
]
  where
    clash : is_pending_of id i ≡ true → ⊥
    clash e = ground (arith, h, e)

    rest : is_pending_of id i ≡ false → any_row (is_pending_of id) is ≡ false
    rest e = ground (arith, h, e)

module _ (id : String) (run : Run) where
  abbrev Stored : List Run → List RunInput → List Activation → Type 0
  Stored runs inputs activations = first_row (is_run id) runs ≡ some run

  abbrev Disposed : List Run → List RunInput → List Activation → Type 0
  Disposed runs inputs activations =
      (first_row (is_run id) runs ≡ some run) × All (λ i. is_pending_of id i ≡ false) inputs

  abbrev Settled : List Run → List RunInput → List Activation → Type 0
  Settled runs inputs activations =
      ((r : Run) × ((first_row (is_run id) runs ≡ some r) × (r.state ≡ completed)))
      × All (λ i. is_pending_of id i ≡ false) inputs

  exception-Triple :
      (inputs : List RunInput) (through : ℕ) (e : CompletionException) (es : List Edge)
      → Triple Any (On Stored) (apply_exception inputs through e es) (λ _. On Stored)
  unfolding apply_exception validate_disposition supersede
  exception-Triple inputs through e es =
      Triple-bind _ _ (Triple-row-On Stored (first_row (is_input e.run_input_id) inputs) _) λ input.
        Triple-bind _ _ (Triple-check-On Stored _ _) λ _.
          Triple-bind _ _
            (Triple-bind _ _ (Triple-check-On Stored _ _) λ _. Triple-check-On Stored _ _)
            λ _.
              Triple-if (is_superseded e.disposition) (supersede inputs e es) _
                (λ _.
                  Triple-bind _ _ (Triple-row-On Stored (given e.superseded_by_run_input_id) _)
                    λ target.
                      Triple-bind _ _ (Triple-check-On Stored _ _) λ _. Triple-value-On Stored _)
                (λ _. Triple-bind _ _ (Triple-check-On Stored _ _) λ _. Triple-value-On Stored _)

  exceptions-Triple :
      (inputs : List RunInput) (through : ℕ) (xs : List CompletionException) (es : List Edge)
      → Triple Any (On Stored) (apply_exceptions inputs through xs es) (λ _. On Stored)
  unfolding apply_exceptions
  exceptions-Triple inputs through [] es = Triple-value-On Stored es
  exceptions-Triple inputs through (x ∷ xs) es =
      Triple-bind _ _ (exception-Triple inputs through x es) (exceptions-Triple inputs through xs)

  input-Triple :
      (activation_id : String) (through : ℕ) (xs : List CompletionException) (input : RunInput)
      → Triple Any (On Stored) (dispose_input activation_id through xs input) (λ _. On Stored)
  unfolding dispose_input update_input
  input-Triple activation_id through xs input =
      Triple-if (not (is_pending input.disposition) || ltb through input.run_input_sequence)
        (pure tt) _ (λ _. Triple-value-On Stored tt)
        (λ _. Triple-bind _ _ (Triple-gets-On Stored _) λ supplied.
          Triple-bind _ _ (Triple-check-On Stored _ _)
            λ _. Triple-modify _ {Q = λ _. On Stored} (λ s h. h))

  reply-Triple :
      (reply : Option FinalReply) (p : Principal) (context : Option String)
      (activation_id correlation : String)
      → Triple Any
          (On Disposed)
          (publish_final_reply reply run p context activation_id correlation)
          (λ _. On Disposed)
  unfolding publish_final_reply require_thread
  reply-Triple none p context activation_id correlation = Triple-value-On Disposed none
  reply-Triple (some reply) p context activation_id correlation =
      Triple-bind _ _ (Triple-find-On Disposed _ _) λ thread.
        Triple-bind _ _ (Triple-cursor-On Disposed thread p context _)
          λ _. Triple-bind _ _ (Triple-message-On Disposed _) λ created. Triple-value-On Disposed _

  settle-Triple :
      (revision at : ℕ)
      → Triple Any (On Disposed) (update_run id (complete revision at)) (λ _. On Settled)
  unfolding update_run
  settle-Triple revision at = Triple-modify _ λ s h. (
    (
      complete revision at run,
      (first_row-update (is_run id) (complete revision at) (λ x. refl) s.runs run h.0, refl),
    ),
    h.1,
  )

  revoke-Triple :
      (reason : String) (at : ℕ)
      → Triple Any (On Settled) (revoke_run_activations id reason at) (λ _. On (Completes id))
  unfolding revoke_run_activations
  revoke-Triple reason at = Triple-bind _ _ (Triple-gets-On Settled _) λ changed.
      Triple-bind _ _
        (Triple-modify _ {Q = λ _. On (Completes id)} λ s h. record {
          settled = h.0;
          disposed = h.1;
          revoked =
              update_rows-All (is_revocable id) (revoke_activation at reason)
                (λ a. and_false (is_for_run a id && is_none a.finished_at)) s.activations;
        })
        λ _. Triple-marks-On (Completes id) changed

inputs-Triple :
    (c : CompleteRun) (run : Run) (activation_id : String)
    → Triple Any
        (On (Stored c.run_id run))
        (dispose_inputs c activation_id)
        (λ _. On (Disposed c.run_id run))
unfolding dispose_inputs
inputs-Triple c run activation_id =
    let S = Stored c.run_id run in
    Triple-bind _ _ (Triple-check-On S _ _) λ _. Triple-bind _ _ (Triple-gets-On S _) λ inputs.
      Triple-bind _ _
        (exceptions-Triple c.run_id run inputs c.incorporated_through_input_sequence c.exceptions _)
        λ edges. Triple-bind _ _ (Triple-check-On S _ _) λ _.
          Triple-bind _ _
            (Triple-loop _ inputs (
              input-Triple c.run_id run activation_id c.incorporated_through_input_sequence
                c.exceptions))
            λ _.
              Triple-bind _ _ (Triple-gets (λ w. any_row (is_pending_of c.run_id) w.run_inputs))
                λ pending.
                  Triple-weaken (λ s h. h) (Triple-check _ _ (λ s h. tt))
                    λ r s h.
                      (h.0.0, none_pending c.run_id s.run_inputs (h.0.1 ∙ settled pending h.1))
  where
    settled : (b : Bool) → not b ≡ true → b ≡ false
    settled true h = cc
    settled false h = refl

complete-Triple :
    (c : CompleteRun) (p : Principal) (context : Option String) (correlation : String)
    → Triple Any Any (complete_run c p context correlation) (λ _. CompletedIn c.run_id)
unfolding complete_run
complete-Triple c p context correlation =
    Triple-bind _ _
      (Triple-weaken (λ s h. h) (run-Triple c.run_id (some c.expected_run_revision))
        λ run s h. subst (λ i. first_row (is_run i) s.runs ≡ some run) h.1 h.0)
      λ run.
        let S = Stored c.run_id run in
        let D = Disposed c.run_id run in
        let T = Settled c.run_id run in
        let C = Completes c.run_id in
        Triple-bind _ _ (activation-Triple S context p run) λ a.
          Triple-bind _ _ (inputs-Triple c run a.id) λ _.
            Triple-bind _ _ (reply-Triple c.run_id run c.final_reply p context a.id correlation)
              λ m. Triple-bind _ _ (Triple-now-On D) λ at.
                Triple-bind _ _ (settle-Triple c.run_id run (run.revision + 1) at) λ _.
                  Triple-bind _ _ (Triple-now-On T) λ later.
                    Triple-bind _ _ (revoke-Triple c.run_id run "run_completed" later) λ _.
                      Triple-bind _ _ (Triple-capacity-On C run.causal_root_id) λ capacity.
                        Triple-bind _ _ (Triple-event-On C _) λ cursor.
                          Triple-bind _ _ (Triple-enqueue-On C _ _ _ _) λ _. Triple-value-On C _

-- A completion that returns leaves the Run stored as Completed, with no Pending input and with no
-- Activation that is neither finished nor revoked; from there the check that the Run can change throws
-- TerminalRun and writes nothing, and no cancellation, failure, completion or pause of the Run, no
-- message to it, no reply of it and no start of an Activation for it returns.
pub complete_run-Completes :
    (c : CompleteRun) (p : Principal) (context : Option String) (correlation : String)
    (w w' : World) (r : CommandResult)
    → complete_run c p context correlation w ≡ returned r w'
    → CompletedIn c.run_id w' × Refuses c.run_id w'
complete_run-Completes c p context correlation w w' r h =
    let done = Triple-returned (complete-Triple c p context correlation) w tt h in
    let (row, (stored, last)) = done.settled in
    (done, Terminal-Refuses c.run_id w' (row, (stored, ap is_terminal_run_state last)))
