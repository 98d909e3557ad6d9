-- ===== src/Kernel/Runs/Refused.antt =====
-- packages/kernel/src/runs.ts with activations.ts: the commands that ask for a Run that can change.
use torsor.Prelude.{
  ℕ, ◌≢◌, String, ◌≡◌, sym, ◌∙◌, true, not, Option, some, List, str_eq, first_row, arith,
}
use torsor.Kernel.Errors.{kernel_error, terminal_run}
use torsor.Kernel.Action.{returned, thrown, ◌>>=◌}
use torsor.Kernel.Action.Triples.{
  Triple, Triple-or_throw, Triple-check, Triple-bind, Triple-find, Triple-weaken, Triple-pure,
  Triple-returned,
}
use torsor.Kernel.Rows.{Principal, Run, is_terminal_run_state}
use torsor.Kernel.World.{World}
use torsor.Kernel.Results.{CommandResult}
use torsor.Kernel.ReadOnly.{Any}
use torsor.Kernel.Guards.{require_kind}
use torsor.Kernel.Activations.Validity.{require_run}
use torsor.Kernel.Activations.Actors.{require_mutable_run}
use torsor.Kernel.Runs.Commands.{cancel_run, fail_run, wait_run}
use torsor.Kernel.Runs.Completion.{CompleteRun, complete_run}
use torsor.Kernel.Runs.Inbox.{PublishReply, send_to_run, publish_run_reply}
use torsor.Kernel.Execution.Activations.Beginning.{StartActivation, start_for_run}

-- The Run is stored in a terminal state.
abbrev pub Terminal : String → World → Type 0
Terminal id w =
    (r : Run) × ((first_row (λ x. str_eq x.id id) w.runs ≡ some r)
      × (is_terminal_run_state r.state ≡ true))

-- In this state a command that asks for the Run to be able to change finds it terminal and writes
-- nothing. So none of these commands on the Run returns, whoever asks and with whatever arguments: its
-- cancellation, failure, completion and pause, a message to it, a reply of it, the start of an
-- Activation for it.
pub record Refuses (id : String) (w : World) : Type 0 where
  pub terminal :
      (expected : Option ℕ)
      → require_mutable_run id expected w ≡ thrown (kernel_error terminal_run) w
  pub cancels :
      (n : ℕ) (reason : String) (p : Principal) (c : String) (r : CommandResult) (w' : World)
      → cancel_run id n reason p c w ≢ returned r w'
  pub fails :
      (n : ℕ) (reason : String) (p : Principal) (context : Option String) (c : String)
      (r : CommandResult) (w' : World)
      → fail_run id n reason p context c w ≢ returned r w'
  pub waits :
      (n : ℕ) (reason : String) (p : Principal) (context : Option String) (c : String)
      (r : CommandResult) (w' : World)
      → wait_run id n reason p context c w ≢ returned r w'
  pub completes :
      (x : CompleteRun) (p : Principal) (context : Option String) (c : String) (r : CommandResult)
      (w' : World)
      → complete_run (record x { run_id = id }) p context c w ≢ returned r w'
  pub sends :
      (n : Option ℕ) (body : String) (targets : List String) (p : Principal) (c : String)
      (r : CommandResult) (w' : World)
      → send_to_run id n body targets p c w ≢ returned r w'
  pub replies :
      (x : PublishReply) (p : Principal) (context : Option String) (c : String) (r : CommandResult)
      (w' : World)
      → publish_run_reply (record x { run_id = id }) p context c w ≢ returned r w'
  pub starts :
      (x : StartActivation) (p : Principal) (at expires : ℕ) (c : String) (r : CommandResult)
      (w' : World)
      → start_for_run x id p at expires c w ≢ returned r w'

closed_row :
    (id : String) (expected : Option ℕ) (w : World) (r : Run)
    → first_row (λ x. str_eq x.id id) w.runs ≡ some r
    → is_terminal_run_state r.state ≡ true
    → require_mutable_run id expected w ≡ thrown (kernel_error terminal_run) w
unfolding require_mutable_run require_run ◌>>=◌
closed_row id expected w r h t = ground arith

module _ (id : String) where
  mutable-refused : (n : Option ℕ) → Triple Any (Terminal id) (require_mutable_run id n) (λ r w. ⊥)
  unfolding require_mutable_run require_run
  mutable-refused n = Triple-bind _ _ (Triple-find _ _) λ run.
      Triple-bind _ _ (Triple-check _ _ (λ w h. tt)) λ _.
        Triple-bind _ _ (Triple-check _ _ (λ w h. tt)) λ _.
          Triple-weaken (λ w h. h) (Triple-pure run)
            λ x w h. clash w run h.0.0.0.0 h.0.0.0.1 h.0.0.1
    where
      clash :
          (w : World) (run : Run)
          → Terminal id w
          → first_row (λ x. str_eq x.id id) w.runs ≡ some run
          → not (is_terminal_run_state run.state) ≡ true
          → ⊥
      clash w run (r, (stored, last)) found open_ = ground (arith, sym stored ∙ found, last, open_)

  cancel-refused :
      (n : ℕ) (reason : String) (p : Principal) (c : String)
      → Triple Any (Terminal id) (cancel_run id n reason p c) (λ r w. ⊥)
  unfolding cancel_run require_kind
  cancel-refused n reason p c =
      Triple-bind _ _ (Triple-weaken (λ w h. h) (Triple-check _ _ (λ w h. tt)) (λ a w h. h.0))
        λ _. Triple-bind _ _ (mutable-refused (some n)) λ run. record { at = λ w h. elim h [ ] }

  fail-refused :
      (n : ℕ) (reason : String) (p : Principal) (context : Option String) (c : String)
      → Triple Any (Terminal id) (fail_run id n reason p context c) (λ r w. ⊥)
  unfolding fail_run
  fail-refused n reason p context c =
      Triple-bind _ _ (mutable-refused (some n)) λ run. record { at = λ w h. elim h [ ] }

  wait-refused :
      (n : ℕ) (reason : String) (p : Principal) (context : Option String) (c : String)
      → Triple Any (Terminal id) (wait_run id n reason p context c) (λ r w. ⊥)
  unfolding wait_run
  wait-refused n reason p context c =
      Triple-bind _ _ (mutable-refused (some n)) λ run. record { at = λ w h. elim h [ ] }

  complete-refused :
      (x : CompleteRun) (p : Principal) (context : Option String) (c : String)
      → Triple Any (Terminal id) (complete_run (record x { run_id = id }) p context c) (λ r w. ⊥)
  unfolding complete_run
  complete-refused x p context c =
      Triple-bind _ _ (mutable-refused (some x.expected_run_revision))
        λ run. record { at = λ w h. elim h [ ] }

  send-refused :
      (n : Option ℕ) (body : String) (targets : List String) (p : Principal) (c : String)
      → Triple Any (Terminal id) (send_to_run id n body targets p c) (λ r w. ⊥)
  unfolding send_to_run require_kind
  send-refused n body targets p c =
      Triple-bind _ _ (Triple-weaken (λ w h. h) (Triple-check _ _ (λ w h. tt)) (λ a w h. h.0)) λ _.
        Triple-bind _ _ (Triple-weaken (λ w h. h) (Triple-or_throw n _ (λ w h. tt)) (λ a w h. h.0))
          λ m. Triple-bind _ _ (mutable-refused (some m)) λ run. record { at = λ w h. elim h [ ] }

  reply-refused :
      (x : PublishReply) (p : Principal) (context : Option String) (c : String)
      → Triple Any
          (Terminal id)
          (publish_run_reply (record x { run_id = id }) p context c)
          (λ r w. ⊥)
  unfolding publish_run_reply
  reply-refused x p context c =
      Triple-bind _ _ (mutable-refused (some x.expected_run_revision))
        λ run. record { at = λ w h. elim h [ ] }

  start-refused :
      (x : StartActivation) (p : Principal) (at expires : ℕ) (c : String)
      → Triple Any (Terminal id) (start_for_run x id p at expires c) (λ r w. ⊥)
  unfolding start_for_run
  start-refused x p at expires c =
      Triple-bind _ _
        (Triple-weaken (λ w h. h) (Triple-or_throw x.expected_run_revision _ (λ w h. tt))
          (λ a w h. h.0))
        λ m. Triple-bind _ _ (mutable-refused (some m)) λ run. record { at = λ w h. elim h [ ] }

  pub Terminal-Refuses : (w : World) → Terminal id w → Refuses id w
  Terminal-Refuses w h = record {
    terminal = λ n. closed_row id n w h.0 h.1.0 h.1.1;
    cancels = λ n reason p c r w' e. Triple-returned (cancel-refused n reason p c) w h e;
    fails = λ n reason p x c r w' e. Triple-returned (fail-refused n reason p x c) w h e;
    waits = λ n reason p x c r w' e. Triple-returned (wait-refused n reason p x c) w h e;
    completes = λ y p x c r w' e. Triple-returned (complete-refused y p x c) w h e;
    sends = λ n b ts p c r w' e. Triple-returned (send-refused n b ts p c) w h e;
    replies = λ y p x c r w' e. Triple-returned (reply-refused y p x c) w h e;
    starts = λ y p at u c r w' e. Triple-returned (start-refused y p at u c) w h e;
  }
