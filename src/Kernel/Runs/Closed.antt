-- ===== src/Kernel/Runs/Closed.antt =====
-- packages/kernel/src/runs.ts: a Run that failed or was cancelled is closed.
use torsor.Prelude.{
  ℕ, String, ◌≡◌, sym, ap, subst, ◌∙◌, Bool, Option, none, some, List, eq_iff, first_row,
}
use torsor.Kernel.Errors.{KernelError}
use torsor.Kernel.Action.{returned, pure, gets, check, or_throw, ◌>>=◌}
use torsor.Kernel.Action.Triples.{
  Triple, Triple-pure, Triple-throw, Triple-gets, Triple-or_throw, Triple-check, Triple-bind,
  Triple-next, Triple-weaken, Triple-assume, Triple-returned,
}
use torsor.Kernel.Rows.{
  Principal, Run, RunInput, Activation, Cause, for_run, for_attention, is_terminal_run_state,
}
use torsor.Kernel.World.{World}
use torsor.Kernel.Results.{CommandResult}
use torsor.Kernel.ReadOnly.{Any}
use torsor.Kernel.Guards.{require_kind}
use torsor.Kernel.Activations.Validity.{
  Scope, Validity, live, dead, require_run, require_attention, require_activation,
  require_live_activation, load_scope_of, load_activation_scope_state, require_live,
  assert_activation_scope_current,
}
use torsor.Kernel.Activations.Actors.{
  require_mutable_run, require_run_activation, require_agent_for_principal, named_activation,
}
use torsor.Kernel.Runs.Commands.{Ending, ends_failed, ends_cancelled, is_run, cancel_run, fail_run}
use torsor.Kernel.Runs.Refused.{Terminal, Refuses, Terminal-Refuses}
use torsor.Kernel.Runs.Ended.{
  Ended, EndedIn, On, Found, first_row-test, Triple-now-On, Triple-gets-On, Triple-row-On,
  terminate_run-Triple,
}

module _ (Q : List Run → List RunInput → List Activation → Type 0) where
  pub Triple-check-On : (b : Bool) (e : KernelError) → Triple Any (On Q) (check b e) (λ _. On Q)
  Triple-check-On b e = Triple-weaken (λ s h. h) (Triple-check b e (λ s h. tt)) (λ a s h. h.0)

  pub Triple-find-On :
      {A : Type 0} (f : World → Option A) (e : KernelError)
      → Triple Any (On Q) (gets f >>= λ found. or_throw found e) (λ _. On Q)
  Triple-find-On f e = Triple-bind _ _ (Triple-gets-On Q f) (λ found. Triple-row-On Q found e)

  pub Triple-value-On : {A : Type 0} (a : A) → Triple Any (On Q) (pure a) (λ _. On Q)
  Triple-value-On a = Triple-weaken (λ s h. h) (Triple-pure a) (λ b s h. h.0)

  pub scope-Triple : (cause : Cause) → Triple Any (On Q) (load_scope_of cause) (λ _. On Q)
  unfolding load_scope_of require_run require_attention
  scope-Triple (for_run id generation) =
      Triple-bind _ _ (Triple-find-On _ _) λ run. Triple-value-On _
  scope-Triple (for_attention id token) =
      Triple-bind _ _ (Triple-find-On _ _)
        λ attention. Triple-bind _ _ (Triple-gets-On Q _) λ fence. Triple-value-On _

  pub live-Triple :
      (scope : Scope) (v : Validity) → Triple Any (On Q) (require_live scope v) (λ _. On Q)
  live-Triple scope live = Triple-value-On tt
  live-Triple scope (dead reason) = Triple-throw _ (λ s h. tt)

  pub activation-Triple :
      (context : Option String) (p : Principal) (run : Run)
      → Triple Any (On Q) (require_run_activation context p run) (λ _. On Q)
  unfolding require_run_activation require_kind require_live_activation require_activation
      require_agent_for_principal assert_activation_scope_current load_activation_scope_state
  activation-Triple context p run = Triple-bind _ _ (Triple-check-On _ _) λ _.
      Triple-bind _ _ (Triple-row-On Q (named_activation context) _) λ id.
        Triple-bind _ _
          (Triple-bind _ _ (Triple-find-On _ _)
            λ a. Triple-bind _ _ (Triple-check-On _ _) λ _. Triple-value-On a)
          λ a. Triple-bind _ _ (Triple-check-On _ _) λ _.
            Triple-bind _ _ (Triple-find-On _ _) λ agent. Triple-bind _ _ (Triple-check-On _ _) λ _.
              Triple-bind _ _
                (Triple-bind _ _ (scope-Triple a.cause)
                  λ scope. Triple-bind _ _ (Triple-now-On Q) λ at. live-Triple scope _)
                λ _. Triple-value-On a

-- the run that a command names
pub run-Triple :
    (id : String) (expected : Option ℕ)
    → Triple Any Any (require_mutable_run id expected) (λ run s. On (Found run) s × (run.id ≡ id))
unfolding require_mutable_run require_run
run-Triple id expected =
    Triple-bind _ _
      (Triple-bind _ _ (Triple-gets (λ w. first_row (is_run id) w.runs)) λ found.
        Triple-weaken (λ s h. h) (Triple-or_throw found _ (λ s h. tt))
          λ run s h. named run s (h.0.1 ∙ h.1))
      λ run. Triple-next (Triple-check _ _ (λ s h. tt)) λ _ _.
        Triple-next (Triple-check _ _ (λ s h. tt)) λ _ _.
          Triple-weaken (λ s h. h) (Triple-pure run)
            λ r s h. subst (λ x. On (Found x) s × (x.id ≡ id)) (sym h.1) h.0
  where
    named :
        (run : Run) (s : World)
        → first_row (is_run id) s.runs ≡ some run
        → On (Found run) s × (run.id ≡ id)
    named run s h =
        let same = (eq_iff run.id id).0 (first_row-test (is_run id) s.runs run h) in
        (subst (λ i. first_row (is_run i) s.runs ≡ some run) (sym same) h, same)

terminal : (id : String) (ending : Ending) (w : World) → EndedIn id ending w → Terminal id w
terminal id ends_failed w h =
    let (r, (stored, last)) = h.settled in (r, (stored, ap is_terminal_run_state last))
terminal id ends_cancelled w h =
    let (r, (stored, last)) = h.settled in (r, (stored, ap is_terminal_run_state last))

at_id :
    (run : Run) (id : String) (ending : Ending) (s : World)
    → run.id ≡ id
    → On (Ended run.id ending) s
    → EndedIn id ending s
at_id run id ending s same h = subst (λ i. EndedIn i ending s) same h

cancel-Triple :
    (id : String) (expected : ℕ) (reason : String) (p : Principal) (correlation : String)
    → Triple Any Any (cancel_run id expected reason p correlation) (λ _. EndedIn id ends_cancelled)
unfolding cancel_run require_kind
cancel-Triple id expected reason p correlation =
    Triple-bind _ _ (Triple-weaken (λ s h. h) (Triple-check _ _ (λ s h. tt)) (λ a s h. tt)) λ _.
      Triple-bind _ _ (run-Triple id (some expected)) λ run. Triple-assume λ same.
        Triple-weaken (λ s h. h) (terminate_run-Triple run ends_cancelled reason p none correlation)
          λ r s h. at_id run id ends_cancelled s same h

fail-Triple :
    (id : String) (expected : ℕ) (reason : String) (p : Principal) (context : Option String)
    (correlation : String)
    → Triple Any Any
        (fail_run id expected reason p context correlation)
        (λ _. EndedIn id ends_failed)
unfolding fail_run
fail-Triple id expected reason p context correlation =
    Triple-bind _ _ (run-Triple id (some expected)) λ run. Triple-assume λ same.
      Triple-bind _ _ (activation-Triple (Found run) context p run) λ a.
        Triple-weaken (λ s h. h)
          (terminate_run-Triple run ends_failed reason p (some a.id) correlation)
          λ r s h. at_id run id ends_failed s same h

-- A cancellation that returns leaves the Run stored as Cancelled, with no Pending input and with no
-- Activation that is neither finished nor revoked; from there the check that the Run can change throws
-- TerminalRun and writes nothing, and no cancellation, failure, completion or pause of the Run, no
-- message to it, no reply of it and no start of an Activation for it returns.
pub cancel_run-Ended :
    (id : String) (expected : ℕ) (reason : String) (p : Principal) (correlation : String)
    (w w' : World) (r : CommandResult)
    → cancel_run id expected reason p correlation w ≡ returned r w'
    → EndedIn id ends_cancelled w' × Refuses id w'
cancel_run-Ended id expected reason p correlation w w' r h =
    let ended = Triple-returned (cancel-Triple id expected reason p correlation) w tt h in
    (ended, Terminal-Refuses id w' (terminal id ends_cancelled w' ended))

-- A failure that returns leaves the Run stored as Failed, with no Pending input and with no
-- Activation that is neither finished nor revoked; from there the check that the Run can change throws
-- TerminalRun and writes nothing, and no cancellation, failure, completion or pause of the Run, no
-- message to it, no reply of it and no start of an Activation for it returns.
pub fail_run-Ended :
    (id : String) (expected : ℕ) (reason : String) (p : Principal) (context : Option String)
    (correlation : String) (w w' : World) (r : CommandResult)
    → fail_run id expected reason p context correlation w ≡ returned r w'
    → EndedIn id ends_failed w' × Refuses id w'
fail_run-Ended id expected reason p context correlation w w' r h =
    let ended = Triple-returned (fail-Triple id expected reason p context correlation) w tt h in
    (ended, Terminal-Refuses id w' (terminal id ends_failed w' ended))
