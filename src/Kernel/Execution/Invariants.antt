-- ===== src/Kernel/Execution/Invariants.antt =====
-- packages/kernel/src/execution.ts: what a condition on the database needs so that each command on
-- Activations keeps it. The fields are the statements that write; the rest is the same for every
-- condition.
use torsor.Prelude.{
  ℕ, String, ◌≡◌, true, false, not, ◌&&◌, Option, some, List, [], ◌∷◌, ◌++◌, ◌⊎◌, first_row,
  any_row, update_rows,
}
use torsor.Kernel.Action.Triples.{Triple, Triple-modify, Triple-bind}
use torsor.Kernel.Rows.{
  Run, Activation, ActivationOutcome, ActivationRunInput, Cause, for_run, for_attention,
  ProviderAttempt, RunActivity, Thread, AttemptStatus, started, attempt_failed,
}
use torsor.Kernel.World.{World}
use torsor.Kernel.ReadOnly.{Any}
use torsor.Kernel.Activations.Validity.{require_run}
use torsor.Kernel.Physical.Authority.{is_executing}
use torsor.Kernel.Runs.Events.{is_revocable, revoke_activation}
use torsor.Kernel.Runs.Commands.{is_run, update_run}
use torsor.Kernel.Attentions.Decisions.{is_activation}
use torsor.Kernel.Frames.{Stable, Kept-now, Kept-fresh, Kept-check, Kept-pure, Kept-find}
use torsor.Kernel.Execution.Activations.{Start, new_activation, finish}
use torsor.Kernel.Execution.Attempts.{is_attempt, is_acknowledged, may_finish, settle_attempt}
use torsor.Kernel.Execution.Activities.{Activity, insert_activity}

-- a status that an attempt is given once it runs
abbrev pub Settling : AttemptStatus → Type 0
Settling status = (may_finish status ≡ true) ⊎ (status ≡ attempt_failed)

-- `Ready c` holds where an Activation for `c` may be stored.
pub record Invariant (On : World → Type 0) (Ready : Cause → World → Type 0) : Type 0 where
  pub kept : Stable On
  pub ready : (c : Cause) → Stable (Ready c)
  pub threads :
      (c : Cause) (w : World) (xs : List Thread)
      → Ready c w
      → Ready c (record w { db = record w.db { threads = xs } })
  pub all_threads :
      (w : World) (xs : List Thread) → On w → On (record w { db = record w.db { threads = xs } })
  pub relax : (c : Cause) (w : World) → Ready c w → On w
  pub supersede_rows :
      (id reason : String) (at generation : ℕ) (w : World)
      → On w
      → Ready (for_run id generation) (record w {
        db = record w.db {
          activations = update_rows (is_revocable id) (revoke_activation at reason) w.activations;
        };
      })
  pub attend : (id token : String) (w : World) → On w → Ready (for_attention id token) w
  pub begin :
      (id : String) (at : ℕ) (start : Start) (w : World)
      → Ready start.cause w
      → On (record w {
        db = record w.db { activations = w.activations ++ new_activation id at start ∷ [] };
      })
  pub supplied :
      (w : World) (xs : List ActivationRunInput)
      → On w
      → On (record w { db = record w.db { activation_run_inputs = xs } })
  pub change_run :
      (c : Cause) (id : String) (f : Run → Run)
      → ((r : Run) → (f r).id ≡ r.id)
      → ((r : Run) → (f r).next_activity_sequence ≡ r.next_activity_sequence)
      → (w : World) → Ready c w
      → Ready c (record w { db = record w.db { runs = update_rows (is_run id) f w.runs } })
  pub rerun :
      (id : String) (f : Run → Run)
      → ((r : Run) → (f r).id ≡ r.id)
      → ((r : Run) → (f r).next_activity_sequence ≡ r.next_activity_sequence)
      → (w : World) → On w
      → On (record w { db = record w.db { runs = update_rows (is_run id) f w.runs } })
  pub finished :
      (id : String) (at : ℕ) (outcome : ActivationOutcome) (detail : Option String) (w : World)
      → On w
      → On (record w {
        db = record w.db {
          activations = update_rows (is_activation id) (finish at outcome detail) w.activations;
        };
      })
  pub attempt :
      (a : ProviderAttempt) (w : World)
      → a.status ≡ started
      → any_row (is_attempt a.id) w.provider_attempts ≡ false
      → On w
      → On (record w { db = record w.db { provider_attempts = w.provider_attempts ++ a ∷ [] } })
  pub settle_row :
      (id : String) (a : ProviderAttempt) (status : AttemptStatus) (detail : Option String)
      (at : Option ℕ) (w : World)
      → Settling status
      → first_row (is_attempt id) w.provider_attempts ≡ some a
      → is_executing a.status ≡ true
      → not (is_acknowledged a.status && is_acknowledged status) ≡ true
      → On w
      → On (record w {
        db = record w.db {
          provider_attempts =
              update_rows (is_attempt id) (settle_attempt status detail at) w.provider_attempts;
        };
      })
  pub activity : (a : Activity) → Triple Any On (insert_activity a) (λ _. On)

-- a condition on the four tables that the commands write
pub Stable-rows :
    (Q : List Activation → List ProviderAttempt → List Run → List RunActivity → Type 0)
    → Stable (λ w. Q w.activations w.provider_attempts w.runs w.run_activity_events)
Stable-rows Q = record {
  reads = λ w n h. h;
  issued = λ w n h. h;
  events = λ w xs h. h;
  outbox = λ w xs h. h;
  marks = λ w xs h. h;
}

-- a condition that speaks of no activity and of no Run
pub Kept-activity :
    (Q : List Activation → List ProviderAttempt → Type 0) (a : Activity)
    → Triple Any
        (λ w. Q w.activations w.provider_attempts)
        (insert_activity a)
        (λ _ w. Q w.activations w.provider_attempts)
unfolding insert_activity require_run update_run
Kept-activity Q a =
    let On : World → Type 0 = λ w. Q w.activations w.provider_attempts in
    let s : Stable On = Stable-rows (λ t ps rs es. Q t ps) in
    Triple-bind _ _ (Kept-check On s _ _) λ _. Triple-bind _ _ (Kept-find On s _ _) λ run.
      Triple-bind _ _ (Kept-fresh On s _) λ id. Triple-bind _ _ (Kept-now On s) λ at.
        Triple-bind _ _ (Triple-modify _ {Q = λ _. On} (λ w h. h))
          λ _. Triple-bind _ _ (Triple-modify _ {Q = λ _. On} (λ w h. h)) λ _. Kept-pure On s _
