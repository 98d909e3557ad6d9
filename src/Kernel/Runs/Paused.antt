-- ===== src/Kernel/Runs/Paused.antt =====
-- packages/kernel/src/runs.ts: a Run that waits.
use torsor.Prelude.{
  ℕ, ◌+◌, String, ◌≡◌, refl, subst, false, ◌&&◌, Option, some, List, All, is_none, first_row,
}
use torsor.Kernel.Action.{returned}
use torsor.Kernel.Action.Triples.{
  Triple, Triple-pure, Triple-modify, Triple-bind, Triple-weaken, Triple-returned,
}
use torsor.Kernel.Rows.{Principal, Run, RunInput, Activation, waiting}
use torsor.Kernel.World.{World}
use torsor.Kernel.Results.{CommandResult}
use torsor.Kernel.ReadOnly.{Any}
use torsor.Kernel.Activations.Validity.{is_for_run}
use torsor.Kernel.Runs.Events.{is_revocable, revoke_activation, revoke_run_activations}
use torsor.Kernel.Runs.Commands.{is_run, update_run, wait, wait_run}
use torsor.Kernel.Runs.Ended.{
  On, and_false, update_rows-All, first_row-update, Triple-now-On, Triple-gets-On, Triple-event-On,
  Triple-enqueue-On, Triple-marks-On,
}
use torsor.Kernel.Runs.Closed.{run-Triple, activation-Triple, Triple-check-On}

-- The Run is stored as Waiting, and none of its Activations that have not finished is left without a
-- revocation.
pub record Paused (id : String) (runs : List Run) (inputs : List RunInput)
    (activations : List Activation) : Type 0 where
  pub settled : (r : Run) × ((first_row (is_run id) runs ≡ some r) × (r.state ≡ waiting))
  pub revoked : All (λ a. is_revocable id a ≡ false) activations

abbrev pub PausedIn : String → World → Type 0
PausedIn id s = Paused id s.runs s.run_inputs s.activations

module _ (id : String) (run : Run) where
  abbrev Stored : List Run → List RunInput → List Activation → Type 0
  Stored runs inputs activations = first_row (is_run id) runs ≡ some run

  abbrev Waits : List Run → List RunInput → List Activation → Type 0
  Waits runs inputs activations =
      (r : Run) × ((first_row (is_run id) runs ≡ some r) × (r.state ≡ waiting))

  wait-Triple :
      (revision at : ℕ) → Triple Any (On Stored) (update_run id (wait revision at)) (λ _. On Waits)
  unfolding update_run
  wait-Triple revision at = Triple-modify _ λ s h. (
    wait revision at run,
    (first_row-update (is_run id) (wait revision at) (λ x. refl) s.runs run h, refl),
  )

  revoke-Triple :
      (reason : String) (at : ℕ)
      → Triple Any (On Waits) (revoke_run_activations id reason at) (λ _. On (Paused id))
  unfolding revoke_run_activations
  revoke-Triple reason at = Triple-bind _ _ (Triple-gets-On Waits _) λ changed.
      Triple-bind _ _
        (Triple-modify _ {Q = λ _. On (Paused id)} λ s h. record {
          settled = h;
          revoked =
              update_rows-All (is_revocable id) (revoke_activation at reason)
                (λ a. and_false (is_for_run a id && is_none a.finished_at)) s.activations;
        })
        λ _. Triple-marks-On (Paused id) changed

wait_run-Triple :
    (id : String) (expected : ℕ) (reason : String) (p : Principal) (context : Option String)
    (correlation : String)
    → Triple Any Any (wait_run id expected reason p context correlation) (λ _. PausedIn id)
unfolding wait_run
wait_run-Triple id expected reason p context correlation =
    Triple-bind _ _
      (Triple-weaken (λ s h. h) (run-Triple id (some expected))
        λ run s h. subst (λ i. first_row (is_run i) s.runs ≡ some run) h.1 h.0)
      λ run. Triple-bind _ _ (activation-Triple (Stored id run) context p run) λ a.
        Triple-bind _ _ (Triple-check-On (Stored id run) _ _) λ _.
          Triple-bind _ _ (Triple-check-On (Stored id run) _ _) λ _.
            Triple-bind _ _ (Triple-now-On (Stored id run)) λ at.
              Triple-bind _ _ (wait-Triple id run (run.revision + 1) at) λ _.
                Triple-bind _ _ (Triple-now-On (Waits id run)) λ later.
                  Triple-bind _ _ (revoke-Triple id run "run_waiting" later) λ _.
                    Triple-bind _ _ (Triple-event-On (Paused id) _) λ cursor.
                      Triple-bind _ _ (Triple-enqueue-On (Paused id) _ _ _ _)
                        λ _. Triple-weaken (λ s h. h) (Triple-pure _) (λ r s h. h.0)

-- A Run that is told to wait, where the command returns, is stored as Waiting, and none of its
-- Activations is left neither finished nor revoked.
pub wait_run-Paused :
    (id : String) (expected : ℕ) (reason : String) (p : Principal) (context : Option String)
    (correlation : String) (w w' : World) (r : CommandResult)
    → wait_run id expected reason p context correlation w ≡ returned r w'
    → PausedIn id w'
wait_run-Paused id expected reason p context correlation w w' r h =
    Triple-returned (wait_run-Triple id expected reason p context correlation) w tt h
