-- ===== src/Kernel/Physical/Monotone.antt =====
-- packages/kernel/src/physical-worktrees.ts: no command moves an execution back.
use torsor.Prelude.{
  and_true, ℕ, String, ◌≡◌, refl, ap, ◌⊎◌, inl, inr, Bool, true, false, not, ◌&&◌, Option, none,
  some, arith,
}
use torsor.Kernel.Errors.{KernelError}
use torsor.Kernel.Action.{final, check}
use torsor.Kernel.Action.Triples.{
  Triple, Triple-pure, Triple-check, Triple-bind, Triple-weaken, Triple-next, Triple-if,
  Triple-final,
}
use torsor.Kernel.Rows.{
  Principal, WorktreeExecution, ExecutionState, starting, running, stop_requested, uncertain,
  is_stopped,
}
use torsor.Kernel.World.{World}
use torsor.Kernel.Physical.Rows.{
  require_runtime, require_worktree, require_receipt, when, Receipt, is_uncertain,
}
use torsor.Kernel.Physical.Commands.{
  StartCommand, RecordCommand, start_worktree_execution, record_worktree_execution,
  recover_worktree_execution, revoke_worktree_execution_authority, record_pid, is_pid, allows,
  ExecutionCommand, start_execution, record_execution, recover_execution, revoke_execution,
  execution_command,
}
use torsor.Kernel.Physical.Advances.{
  Table, here, ExecutionsFollow, ExecutionsFollow-refl, ExecutionsSound,
}
use torsor.Kernel.Physical.Frames.{
  On, Keeps-pure, Keeps-check, Keeps-find, Keeps-now, Keeps-fresh, require_live_authority-Keeps,
  require_source_activation-Keeps, require_provider-Keeps, idle-Keeps,
}
use torsor.Kernel.Physical.Statements.{
  Kept, KeptKnown, KeptCurrent, Triple-require_execution, Triple-change-Known, Triple-revoke,
  Triple-when, Triple-record_state, Triple-insert, event-Triple,
}
use torsor.Kernel.Physical.Checked.{K, Known-Current, assert_activation_writer_authority-Triple}

module _ (t0 : Table) where
  start-Triple :
      (c : StartCommand) (p : Principal) (correlation : String)
      → Triple (K t0) (K t0) (start_worktree_execution c p correlation) (λ _. (K t0))
  unfolding start_worktree_execution require_runtime require_worktree
  start-Triple c p correlation = Triple-bind _ _ (Keeps-check (Kept t0) _ _) λ _.
      Triple-bind _ _ (Keeps-check (Kept t0) _ _) λ _.
        Triple-bind _ _ (idle-Keeps (Kept t0) _ _) λ _.
          Triple-bind _ _ (Keeps-find (Kept t0) _ _) λ worktree.
            Triple-bind _ _
              (require_source_activation-Keeps (Kept t0) worktree.run_id c.activation_id)
              λ _.
                Triple-bind _ _ (require_provider-Keeps (Kept t0) c.provider c.activation_id) λ _.
                  Triple-bind _ _
                    (assert_activation_writer_authority-Triple t0 c.activation_id false false)
                    λ _. Triple-bind _ _ (Keeps-now (Kept t0)) λ observed.
                      Triple-bind _ _
                        (require_live_authority-Keeps (Kept t0) c.authority p observed correlation)
                        λ _. Triple-bind _ _ (Keeps-fresh (Kept t0) _) λ id.
                          Triple-bind _ _ (Keeps-fresh (Kept t0) _) λ token.
                            Triple-bind _ _ (Keeps-now (Kept t0)) λ at.
                              Triple-bind _ _ (Triple-insert t0 _) λ _.
                                Triple-bind _ _ (event-Triple t0 id starting _)
                                  λ _. Keeps-pure (Kept t0) _

  -- a check that keeps what is known of an execution
  Triple-known_check :
      (e : WorktreeExecution) (b : Bool) (x : KernelError)
      → Triple (K t0) (On (KeptKnown t0 e)) (check b x) (λ _ s. On (KeptKnown t0 e) s × (b ≡ true))
  Triple-known_check e b x = Triple-check b x (λ s h. h.0)

  recover_allowed :
      (s : ExecutionState)
      → (not (is_stopped s) && not (is_uncertain s)) ≡ true
      → allows s uncertain ≡ true
  recover_allowed starting h = refl
  recover_allowed running h = refl
  recover_allowed stop_requested h = refl
  recover_allowed uncertain h = cc
  recover_allowed ExecutionState.stop_confirmed h = cc
  recover_allowed ExecutionState.force_terminated h = cc

  recover-Triple :
      (id reason : String) (p : Principal)
      → Triple (K t0) (K t0) (recover_worktree_execution id reason p) (λ _. (K t0))
  unfolding recover_worktree_execution require_runtime when
  recover-Triple id reason p = Triple-bind _ _ (Keeps-check (Kept t0) _ _) λ _.
      Triple-bind _ _ (Triple-require_execution t0 id) λ e.
        Triple-bind _ _ (Triple-known_check e _ _) λ _.
          Triple-bind _ _
            (Triple-weaken (λ s h. (h.0.0, Known-Current e s.worktree_executions h.0.1))
              (Triple-revoke t0 e reason) (λ a s h. h))
            λ _.
              Triple-bind _ _
                (Triple-if (not (is_stopped e.state) && not (is_uncertain e.state)) _ _
                  (λ b. Triple-record_state t0 e uncertain reason (recover_allowed e.state b))
                  (λ _. Triple-weaken (λ s h. h.0) (Keeps-pure (Kept t0) tt) (λ a s h. h)))
                λ _. Keeps-pure (Kept t0) _

  revoke-Triple :
      (receipt : Receipt) (reason : String) (p : Principal)
      → Triple (K t0) (K t0) (revoke_worktree_execution_authority receipt reason p) (λ _. (K t0))
  unfolding revoke_worktree_execution_authority require_runtime require_receipt
  revoke-Triple receipt reason p = Triple-bind _ _ (Keeps-check (Kept t0) _ _) λ _.
      Triple-bind _ _ (Triple-require_execution t0 receipt.execution_id) λ e.
        Triple-bind _ _ (Triple-known_check e _ _) λ _.
          Triple-bind _ _ (Triple-weaken (λ s h. h.0) (Triple-known_check e _ _) (λ a s h. h)) λ _.
            Triple-bind _ _
              (Triple-weaken (λ s h. (h.0.0, Known-Current e s.worktree_executions h.0.1))
                (Triple-revoke t0 e reason) (λ a s h. h.0))
              λ _. Keeps-pure (Kept t0) _

  pid_kept : (old : Option ℕ) (pid : ℕ) → is_pid old pid ≡ true → (old ≡ none) ⊎ (some pid ≡ old)
  pid_kept none pid h = inl refl
  pid_kept (some n) pid h = inr (ap some (ground arith))

  pid-Triple :
      (e : WorktreeExecution) (pid : Option ℕ)
      → Triple (K t0) (On (KeptKnown t0 e)) (record_pid e pid) (λ _. On (KeptCurrent t0 e))
  unfolding record_pid
  pid-Triple e none =
      Triple-weaken (λ s h. h) (Triple-pure tt)
        (λ a s h. (h.0.0, Known-Current e s.worktree_executions h.0.1))
  pid-Triple e (some pid) = Triple-next (Triple-known_check e _ _) λ _ fits.
      Triple-weaken (λ s h. h)
        (Triple-change-Known t0 e (λ x. record x { pid = some pid })
          (record {
            same = refl;
            moved = here;
            process = pid_kept e.pid pid (and_true _ _ fits).1;
            revoked = inr refl;
          }))
        (λ a s h. (h.0, (record e { pid = some pid }, (h.1, refl, refl))))

  record-Triple :
      (c : RecordCommand) (p : Principal)
      → Triple (K t0) (K t0) (record_worktree_execution c p) (λ _. (K t0))
  unfolding record_worktree_execution require_runtime require_receipt
  record-Triple c p = Triple-bind _ _ (Keeps-check (Kept t0) _ _) λ _.
      Triple-bind _ _ (Triple-require_execution t0 c.receipt.execution_id) λ e.
        Triple-next (Triple-known_check e _ _) λ _ _. Triple-next (Triple-known_check e _ _) λ _ _.
          Triple-next (Triple-known_check e _ _) λ _ allowed.
            Triple-bind _ _ (pid-Triple e c.pid) λ _.
              Triple-bind _ _ (Triple-when t0 (KeptCurrent t0 e) _ _ (Triple-revoke t0 e _)) λ _.
                Triple-bind _ _ (Triple-record_state t0 e c.state c.evidence allowed)
                  λ _. Keeps-pure (Kept t0) _

  pub execution_command-Triple :
      (c : ExecutionCommand) (p : Principal) (correlation : String)
      → Triple (K t0) (K t0) (execution_command c p correlation) (λ _. (K t0))
  unfolding execution_command
  execution_command-Triple (start_execution c) p correlation = start-Triple c p correlation
  execution_command-Triple (record_execution c) p correlation = record-Triple c p
  execution_command-Triple (recover_execution id reason) p correlation = recover-Triple id reason p
  execution_command-Triple (revoke_execution receipt reason) p correlation =
      revoke-Triple receipt reason p

-- From a table in which ids are distinct and each Worktree has at most one execution that is not known
-- to have stopped, every command of an execution, on every path and also where it throws, leaves such
-- a table; no row is gone; the state of an execution only moves by the allowed transitions, of which
-- those from a stopped state keep it; and its identity, its process and its revocation, once known,
-- never change. Of a revocation that is not known yet nothing is said, whatever the state.
pub execution_command-ExecutionsFollow :
    (c : ExecutionCommand) (p : Principal) (correlation : String) (w : World)
    → ExecutionsSound w.worktree_executions
    → ExecutionsFollow w.worktree_executions
        (final (execution_command c p correlation w)).worktree_executions
      × ExecutionsSound (final (execution_command c p correlation w)).worktree_executions
execution_command-ExecutionsFollow c p correlation w h =
    Triple-final (λ a s k. k) (execution_command-Triple w.worktree_executions c p correlation) w
      (ExecutionsFollow-refl w.worktree_executions, h)
