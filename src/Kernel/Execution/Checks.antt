-- ===== src/Kernel/Execution/Checks.antt =====
-- packages/kernel/src/execution.ts: the checks of the commands keep a condition.
use torsor.Prelude.{String, ◌≡◌, Bool, Option, none, some, List, given, first_row}
use torsor.Kernel.Action.{pure}
use torsor.Kernel.Action.Triples.{Triple, Triple-bind, Triple-if}
use torsor.Kernel.Rows.{
  Principal, is_agent, Run, Activation, ProviderAttempt, AttemptStatus, is_terminal_run_state,
}
use torsor.Kernel.World.{World}
use torsor.Kernel.ReadOnly.{Any}
use torsor.Kernel.Activations.Validity.{require_run, require_activation, require_live_activation}
use torsor.Kernel.Frames.{
  Stable, Kept-now, Kept-gets, Kept-or_throw, Kept-check, Kept-pure, Kept-find, Kept-live,
  Kept-scope, Kept-actor, Kept-provider_authority, Kept-current,
}
use torsor.Kernel.Execution.Attempts.{
  StartAttempt, provider_attempt_authority, require_provider_input, is_attempt, is_acknowledged,
  finishing_time, require_settling_agent, require_provider_attempt,
}
use torsor.Kernel.Execution.Activities.{
  provenance_id, validate_activity_provenance, require_late, ParkRun, require_parked_run,
  require_parking_activation,
}

-- a condition with a fact about one attempt
pub Stable-found :
    (On : World → Type 0) (id : String) (a : ProviderAttempt)
    → Stable On
    → Stable (λ w. On w × (first_row (is_attempt id) w.provider_attempts ≡ some a))
Stable-found On id a s = record {
  reads = λ w n h. (s.reads w n h.0, h.1);
  issued = λ w n h. (s.issued w n h.0, h.1);
  events = λ w xs h. (s.events w xs h.0, h.1);
  outbox = λ w xs h. (s.outbox w xs h.0, h.1);
  marks = λ w xs h. (s.marks w xs h.0, h.1);
}

module _ (On : World → Type 0) (stable : Stable On) where
  pub authority-Kept :
      (c : StartAttempt) (p : Principal) (run_id : Option String) (ids : List String)
      → Triple Any On (provider_attempt_authority c p run_id ids) (λ _. On)
  unfolding provider_attempt_authority require_activation
  authority-Kept c p (some run_id) ids =
      Triple-bind _ _ (Kept-provider_authority On stable c.outbox p run_id ids)
        λ a. Kept-pure On stable _
  authority-Kept c p none ids = Triple-bind _ _ (Kept-check On stable _ _) λ _.
      Triple-bind _ _ (Kept-now On stable)
        λ observed. Triple-bind _ _ (Kept-find On stable _ _) λ a. Kept-pure On stable _

  pub input-Kept :
      (activation_id : String) (run_id : Option String) (id : String)
      → Triple Any On (require_provider_input activation_id run_id id) (λ _. On)
  unfolding require_provider_input
  input-Kept activation_id run_id id = Triple-bind _ _ (Kept-gets On stable _) λ found.
      Triple-bind _ _ (Kept-or_throw On stable found _) λ input.
        Triple-bind _ _ (Kept-check On stable _ _) λ _.
          Triple-bind _ _ (Kept-check On stable _ _)
            λ _. Triple-bind _ _ (Kept-gets On stable _) λ supplied. Kept-check On stable _ _

  pub settling_agent-Kept :
      (p : Principal) (a : Activation) → Triple Any On (require_settling_agent p a) (λ _. On)
  unfolding require_settling_agent
  settling_agent-Kept p a =
      Triple-if (is_agent p.kind) _ (pure tt)
        (λ _. Triple-bind _ _ (Kept-check On stable _ _) λ _. Kept-scope On stable a)
        (λ _. Kept-pure On stable tt)

  pub time-Kept : (status : AttemptStatus) → Triple Any On (finishing_time status) (λ _. On)
  unfolding finishing_time
  time-Kept status =
      Triple-if (is_acknowledged status) (pure none) _ (λ _. Kept-pure On stable none)
        (λ _. Triple-bind _ _ (Kept-now On stable) λ at. Kept-pure On stable _)

  id-Kept :
      (activation_id attempt_id : Option String) (run_id : String)
      → Triple Any On (provenance_id activation_id attempt_id run_id) (λ _. On)
  unfolding provenance_id require_provider_attempt
  id-Kept activation_id none run_id = Kept-or_throw On stable activation_id _
  id-Kept activation_id (some attempt_id) run_id =
      Triple-bind _ _ (Kept-find On stable _ _) λ attempt.
        Triple-bind _ _ (Kept-check On stable _ _)
          λ _. Triple-bind _ _ (Kept-check On stable _ _) λ _. Kept-pure On stable _

  pub provenance-Kept :
      (run_id : String) (activation_id attempt_id : Option String) (p : Principal)
      (context : Option String) (finished : Bool)
      → Triple Any On
          (validate_activity_provenance run_id activation_id attempt_id p context finished)
          (λ _. On)
  unfolding validate_activity_provenance require_activation
  provenance-Kept run_id activation_id attempt_id p context finished =
      Triple-bind _ _ (id-Kept (given activation_id) (given attempt_id) run_id) λ id.
        Triple-bind _ _
          (Triple-if finished _ (require_live_activation id) (λ _. Kept-find On stable _ _)
            (λ _. Kept-live On stable id))
          λ a. Triple-bind _ _ (Kept-check On stable _ _) λ _.
            Triple-bind _ _ (Kept-actor On stable p context a finished) λ _.
              Triple-bind _ _
                (Triple-if finished (pure tt) _ (λ _. Kept-pure On stable tt)
                  (λ _. Kept-scope On stable a))
                λ _. Kept-pure On stable id

  pub late-Kept : (a : Activation) (run : Run) → Triple Any On (require_late a run) (λ _. On)
  unfolding require_late
  late-Kept a run =
      Triple-if (is_terminal_run_state run.state) (pure tt) _ (λ _. Kept-pure On stable tt)
        (λ _. Triple-bind _ _ (Kept-current On stable a run) λ current. Kept-check On stable _ _)

  pub parked-Kept : (c : ParkRun) → Triple Any On (require_parked_run c) (λ _. On)
  unfolding require_parked_run require_run
  parked-Kept c = Triple-bind _ _ (Kept-find On stable _ _) λ run.
      Triple-bind _ _ (Kept-check On stable _ _) λ _.
        Triple-bind _ _ (Kept-check On stable _ _)
          λ _. Triple-bind _ _ (Kept-check On stable _ _) λ _. Kept-pure On stable run

  pub parking-Kept :
      (c : ParkRun) (run : Run) → Triple Any On (require_parking_activation c run) (λ _. On)
  unfolding require_parking_activation require_provider_attempt require_activation
  parking-Kept c run = Triple-bind _ _ (Kept-find On stable _ _) λ attempt.
      Triple-bind _ _ (Kept-check On stable _ _) λ _. Triple-bind _ _ (Kept-find On stable _ _) λ a.
        Triple-bind _ _ (Kept-check On stable _ _) λ _.
          Triple-bind _ _ (Kept-check On stable _ _)
            λ _. Triple-bind _ _ (Kept-check On stable _ _) λ _. Kept-pure On stable _
