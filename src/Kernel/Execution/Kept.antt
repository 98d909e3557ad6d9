-- ===== src/Kernel/Execution/Kept.antt =====
-- packages/kernel/src/execution.ts and kernel.ts: each command keeps a condition that its writing
-- statements keep.
use torsor.Prelude.{
  String, ◌≡◌, refl, ◌∙◌, Bool, true, false, not, Option, some, inl, inr, first_row, any_row,
}
use torsor.Kernel.Action.{pure}
use torsor.Kernel.Action.Triples.{
  Triple-find, Triple, Triple-gets, Triple-check, Triple-modify, Triple-bind, Triple-next,
  Triple-weaken, Triple-if, Triple-loop,
}
use torsor.Kernel.Rows.{
  Principal, Cause, for_run, Json, ProviderAttempt, AttemptStatus, started, attempt_failed,
}
use torsor.Kernel.World.{World}
use torsor.Kernel.ReadOnly.{Any}
use torsor.Kernel.Guards.{require_kind}
use torsor.Kernel.Activations.Validity.{require_run, require_activation}
use torsor.Kernel.Runs.Commands.{update_run}
use torsor.Kernel.Frames.{
  Stable, Kept-now, Kept-fresh, Kept-check, Kept-pure, Kept-find, Kept-event, Kept-thread_event,
  Kept-enqueue, Kept-live, Kept-scope, Kept-place, Kept-actor,
}
use torsor.Kernel.Execution.Activations.{run_id_of}
use torsor.Kernel.Execution.Attempts.{
  StartAttempt, start_provider_attempt, insert_attempt, is_attempt, is_unknown, update_attempt,
  require_provider_attempt, set_provider_attempt_status, finish_provider_attempt,
  fail_provider_attempt,
}
use torsor.Kernel.Execution.Activities.{
  AppendActivity, append_run_activity, record_late_output, ParkRun,
  park_run_after_provider_attempt_failure,
}
use torsor.Kernel.Execution.Dispatch.{
  ActivationCommand, starts, finishes, attempts, settles, fails, parks, appends, records_late,
  dispatch_activation,
}
use torsor.Kernel.Execution.Invariants.{Invariant, Settling}
use torsor.Kernel.Execution.Starts.{revoke-Triple, start_activation-Kept, finish_activation-Kept}
use torsor.Kernel.Execution.Checks.{
  Stable-found, authority-Kept, input-Kept, settling_agent-Kept, time-Kept, provenance-Kept,
  late-Kept, parked-Kept, parking-Kept,
}

module _ (On : World → Type 0) (Ready : Cause → World → Type 0) (i : Invariant On Ready) where
  insert-Triple :
      (a : ProviderAttempt) → a.status ≡ started → Triple Any On (insert_attempt a) (λ _. On)
  unfolding insert_attempt
  insert-Triple a begun =
      Triple-bind _ _ (Triple-gets (λ w. any_row (is_attempt a.id) w.provider_attempts)) λ known.
        Triple-bind _ _ (Triple-check _ _ (λ w h. tt)) λ _.
          Triple-bind _ _ (Triple-gets _) λ repeated.
            Triple-bind _ _ (Triple-check _ _ (λ w h. tt)) λ _.
              Triple-modify _ {Q = λ _. On} (λ w h.
                let old = h.0.0 in i.attempt a w begun (old.0.1 ∙ absent known old.1) old.0.0)
    where
      absent : (b : Bool) → not b ≡ true → b ≡ false
      absent true h = cc
      absent false h = refl

  start_attempt-Kept :
      (c : StartAttempt) (p : Principal) (context : Option String) (correlation : String)
      → Triple Any On (start_provider_attempt c p context correlation) (λ _. On)
  unfolding start_provider_attempt
  start_attempt-Kept c p context correlation =
      Triple-bind _ _ (Kept-live On i.kept c.activation_id) λ a.
        Triple-bind _ _ (Kept-actor On i.kept p context a false) λ _.
          Triple-bind _ _ (Kept-scope On i.kept a) λ _.
            Triple-bind _ _ (authority-Kept On i.kept c p (run_id_of a.cause) _) λ authority.
              Triple-bind _ _ (Triple-loop _ _ (input-Kept On i.kept c.activation_id _)) λ _.
                Triple-bind _ _ (Kept-fresh On i.kept _) λ id.
                  Triple-bind _ _ (Kept-now On i.kept) λ at.
                    Triple-bind _ _ (insert-Triple _ refl) λ _.
                      Triple-bind _ _ (Kept-place On i.kept a) λ place.
                        Triple-bind _ _ (Kept-event On i.kept _ _) λ sequence. Kept-pure On i.kept _

  attempt-Triple :
      (id : String)
      → Triple Any On
          (require_provider_attempt id)
          (λ a w. On w × (first_row (is_attempt id) w.provider_attempts ≡ some a))
  unfolding require_provider_attempt
  attempt-Triple id = Triple-find (λ w. first_row (is_attempt id) w.provider_attempts) _

  settle-Triple :
      (id : String) (status : AttemptStatus) (detail : Option String) (p : Principal)
      (context : Option String) (correlation : String)
      → Settling status
      → Triple Any On (set_provider_attempt_status id status detail p context correlation) (λ _. On)
  unfolding set_provider_attempt_status require_activation update_attempt
  settle-Triple id status detail p context correlation settling =
      Triple-bind _ _ (attempt-Triple id) λ a.
        let F : World → Type 0 =
          λ w. On w × (first_row (is_attempt id) w.provider_attempts ≡ some a) in
        let s : Stable F = Stable-found On id a i.kept in
        Triple-bind _ _ (Kept-find F s _ _) λ activation.
          Triple-bind _ _ (settling_agent-Kept F s p activation) λ _.
            Triple-bind _ _ (Kept-actor F s p context activation true) λ _.
              Triple-next (Triple-check _ _ (λ w h. tt)) λ _ executing.
                Triple-next (Triple-check _ _ (λ w h. tt)) λ _ fresh.
                  Triple-bind _ _
                    (Triple-if (is_unknown status) _ (pure tt) (λ _. Kept-check F s _ _)
                      (λ _. Kept-pure F s tt))
                    λ _. Triple-bind _ _ (time-Kept F s status) λ at.
                      Triple-bind _ _
                        (Triple-modify _ {Q = λ _. On} (λ w h.
                          i.settle_row id a status detail at w settling h.1 executing fresh h.0))
                        λ _. Triple-bind _ _ (Kept-place On i.kept activation) λ place.
                          Triple-bind _ _ (Kept-event On i.kept _ _)
                            λ sequence. Kept-pure On i.kept _

  finish_attempt-Kept :
      (id : String) (status : AttemptStatus) (detail : Option String) (p : Principal)
      (context : Option String) (correlation : String)
      → Triple Any On (finish_provider_attempt id status detail p context correlation) (λ _. On)
  unfolding finish_provider_attempt
  finish_attempt-Kept id status detail p context correlation =
      Triple-next (Triple-check _ _ (λ w h. tt))
        λ _ may. settle-Triple id status detail p context correlation (inl may)

  append-Kept :
      (c : AppendActivity) (p : Principal) (context : Option String) (correlation : String)
      → Triple Any On (append_run_activity c p context correlation) (λ _. On)
  unfolding append_run_activity require_run
  append-Kept c p context correlation =
      Triple-bind _ _
        (provenance-Kept On i.kept c.run_id c.activation_id c.provider_attempt_id p context false)
        λ id. Triple-bind _ _ (i.activity _) λ activity.
          Triple-bind _ _ (Kept-find On i.kept _ _)
            λ run. Triple-bind _ _ (Kept-event On i.kept _ _) λ sequence. Kept-pure On i.kept _

  record_late-Kept :
      (run_id : String) (activation_id attempt_id : Option String) (payload : Json) (p : Principal)
      (context : Option String) (correlation : String)
      → Triple Any On
          (record_late_output run_id activation_id attempt_id payload p context correlation)
          (λ _. On)
  unfolding record_late_output require_run require_activation
  record_late-Kept run_id activation_id attempt_id payload p context correlation =
      Triple-bind _ _ (Kept-find On i.kept _ _) λ run.
        Triple-bind _ _ (provenance-Kept On i.kept run_id activation_id attempt_id p context true)
          λ id. Triple-bind _ _ (Kept-find On i.kept _ _) λ a.
            Triple-bind _ _ (late-Kept On i.kept a run) λ _.
              Triple-bind _ _ (i.activity _) λ activity.
                Triple-bind _ _ (Kept-event On i.kept _ _) λ sequence. Kept-pure On i.kept _

  park-Kept :
      (c : ParkRun) (p : Principal) (correlation : String)
      → Triple Any On (park_run_after_provider_attempt_failure c p correlation) (λ _. On)
  unfolding park_run_after_provider_attempt_failure require_kind update_run
  park-Kept c p correlation = Triple-bind _ _ (Kept-check On i.kept _ _) λ _.
      Triple-bind _ _ (Kept-check On i.kept _ _) λ _.
        Triple-bind _ _ (Kept-check On i.kept _ _) λ _.
          Triple-bind _ _ (parked-Kept On i.kept c) λ run.
            Triple-bind _ _ (parking-Kept On i.kept c run) λ found.
              Triple-bind _ _ (Kept-now On i.kept) λ at.
                Triple-bind _ _
                  (Triple-modify _ {Q = λ _. On}
                    (λ w h. i.rerun c.run_id _ (λ r. refl) (λ r. refl) w h))
                  λ _.
                    Triple-bind _ _
                      (Triple-weaken (λ w h. h) (revoke-Triple On Ready i c.run_id _ at 0)
                        (λ r w h. i.relax (for_run c.run_id 0) w h))
                      λ _. Triple-bind _ _ (i.activity _) λ activity.
                        Triple-bind _ _ (Kept-thread_event On i.kept _ i.all_threads) λ cursor.
                          Triple-bind _ _ (Kept-enqueue On i.kept _ _ _ _)
                            λ _. Kept-pure On i.kept _

  -- Every command keeps the condition.
  pub dispatch-Kept :
      (c : ActivationCommand) (p : Principal) (context : Option String) (correlation : String)
      → Triple Any On (dispatch_activation c p context correlation) (λ _. On)
  unfolding dispatch_activation fail_provider_attempt
  dispatch-Kept (starts c) p context correlation = start_activation-Kept On Ready i c p correlation
  dispatch-Kept (finishes id outcome detail) p context correlation =
      finish_activation-Kept On Ready i id outcome detail p context correlation
  dispatch-Kept (attempts c) p context correlation = start_attempt-Kept c p context correlation
  dispatch-Kept (settles id status detail) p context correlation =
      finish_attempt-Kept id status detail p context correlation
  dispatch-Kept (fails id error) p context correlation =
      settle-Triple id attempt_failed (some error) p context correlation (inr refl)
  dispatch-Kept (parks c) p context correlation = park-Kept c p correlation
  dispatch-Kept (appends c) p context correlation = append-Kept c p context correlation
  dispatch-Kept (records_late run_id activation_id attempt_id payload) p context correlation =
      record_late-Kept run_id activation_id attempt_id payload p context correlation
