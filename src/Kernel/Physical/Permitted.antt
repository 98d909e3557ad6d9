-- ===== src/Kernel/Physical/Permitted.antt =====
-- packages/kernel/src/physical-worktrees.ts: what assertActivationWriterAuthority has checked, of each
-- execution of the Activation, when it returns.
use torsor.Prelude.{
  ℕ, String, ◌≡◌, sym, ap, subst, ◌∙◌, Bool, true, false, not, ◌&&◌, ◌||◌, Option, some, List, [],
  ◌∷◌, All, arith, str_eq, is_none, first_row, any_row, where_rows,
}
use torsor.Kernel.Errors.{KernelError, kernel_error, writer_authority_lost}
use torsor.Kernel.Action.{Outcome, returned, thrown, gets, check, for_each}
use torsor.Kernel.Action.Triples.{
  Ends, Triple, Triple-pure, Triple-throw, Triple-gets, Triple-check, Triple-bind, Triple-next,
  Triple-weaken, Triple-assume, Triple-if, Triple-catch,
}
use torsor.Kernel.Rows.{Principal, Lease, WorktreeExecution, PhysicalWorktree, Activation, is_ready}
use torsor.Kernel.World.{World, Command}
use torsor.Kernel.ReadOnly.{Any}
use torsor.Kernel.Leases.Rows.{get_lease}
use torsor.Kernel.Leases.Authority.{LeaseAuthority}
use torsor.Kernel.Leases.Authorized.{Authorizes}
use torsor.Kernel.Activations.Validity.{require_run, require_activation, is_for_run}
use torsor.Kernel.Activations.Actors.{require_principal}
use torsor.Kernel.Physical.Idle.{is_worktree}
use torsor.Kernel.Physical.Rows.{require_worktree, revoke_publication, when}
use torsor.Kernel.Physical.Authority.{
  has_decision, may_publish, is_stop_confirmed, lease_token_of, token_or_revoked,
  require_execution_authority, lose_authority, is_internal, assert_execution_authority,
  assert_activation_writer_authority,
}
use torsor.Kernel.Physical.Calm.{
  Instant, Calm, Calm-now, Calm-fresh, Calm-pure, Calm-find, Calm-authority, Calm-native,
  SourceActivation, source-Calm,
}

-- nothing is said of an action that always comes before a throw
Triple-Any : {A : Type 0} {P : World → Type 0} (m : Command A) → Triple Any P m (λ _. Any)
Triple-Any {A} m = record { at = λ s h. anything (m s) }
  where
    anything : (x : Outcome World A) → Ends Any (λ _. Any) x
    anything (returned a s) = tt
    anything (thrown e s) = tt

-- the authority that an execution was started under
abbrev pub authority_of : WorktreeExecution → Option Lease → LeaseAuthority
authority_of e lease = record {
  worktree_id = e.worktree_id;
  generation = e.generation;
  fencing_token = e.fencing_token;
  lease_token = token_or_revoked (lease_token_of lease);
}

-- The execution's Worktree is Ready, its lease at an instant of the clock authorizes the runtime that
-- started the execution under the same generation and fencing token, neither the execution nor the
-- Activation has its authority revoked, its state lets it publish, and the Activation has not finished
-- and is for the Worktree's Run.
pub record Permitted (w : World) (id : String) (e : WorktreeExecution) : Type 0 where
  pub worktree : PhysicalWorktree
  pub lease : Lease
  pub runtime : Principal
  pub activation : Activation
  pub at : ℕ
  pub placed : first_row (is_worktree e.worktree_id) w.physical_worktrees ≡ some worktree
  pub ready : is_ready worktree.state ≡ true
  pub unrevoked : is_none e.authority_revoked ≡ true
  pub unlisted : any_row (str_eq id) w.local_worktree_revocations ≡ false
  pub publishes : may_publish e.state ≡ true
  pub starter : first_row (λ p. str_eq p.id e.runtime_principal_id) w.principals ≡ some runtime
  pub leased : w.leases e.worktree_id ≡ some lease
  pub observed : Instant w at
  pub authorizes : Authorizes (authority_of e (w.leases e.worktree_id)) runtime at lease
  pub source : first_row (λ a. str_eq a.id id) w.activations ≡ some activation
  pub unfinished : is_none activation.finished_at ≡ true
  pub own : is_for_run activation worktree.run_id ≡ true

module _ (w : World) where
  module _ (id : String) (e : WorktreeExecution) where
    body-Triple :
        (t : PhysicalWorktree) (lease : Option Lease)
        → first_row (is_worktree e.worktree_id) w.physical_worktrees ≡ some t
        → lease ≡ w.leases e.worktree_id
        → Triple Any
            (Calm w)
            (require_execution_authority e t lease id false false)
            (λ _ s. Calm w s × Permitted w id e)
    unfolding require_execution_authority require_principal require_activation require_run
        has_decision when
    body-Triple t lease placed row = Triple-bind _ _ (Calm-native w e.operation id) λ _.
        Triple-bind _ _ (Triple-gets _) λ revoked. Triple-bind _ _ (checked revoked) λ _.
          Triple-assume λ facts.
            Triple-next (Calm-find w (λ d. first_row _ d.principals) _) λ p starter.
              Triple-next (Calm-now w) λ at observed.
                Triple-bind _ _ (Calm-fresh w _) λ correlation.
                  Triple-next (Calm-authority w (λ s h. h) (authority_of e lease) p at correlation)
                    λ l held. Triple-next (Calm-find w (λ d. first_row _ d.activations) _) λ a _.
                      Triple-next (Calm-find w (λ d. first_row _ d.runs) _) λ run _.
                        Triple-next (Calm-pure w false) λ decided undecided.
                          Triple-if (not decided) _ _
                            (λ _.
                              Triple-weaken (λ s h. h) (source-Calm w t.run_id id)
                                (λ _ s h. (h.0, permitted facts p starter at observed l held h.1)))
                            (λ k. absurd (clash decided undecided k))
      where
        clash : (b : Bool) → b ≡ false → not b ≡ false → ⊥
        clash true h k = cc
        clash false h k = cc

        Checked : Type 0
        Checked =
            (any_row (str_eq id) w.local_worktree_revocations ≡ false)
            × (is_none e.authority_revoked ≡ true)
            × (is_ready t.state ≡ true)
            × (may_publish e.state ≡ true)

        split :
            (b : Bool)
            → (not b
                && is_none e.authority_revoked
                && is_ready t.state
                && not (is_none lease)
                && may_publish e.state
                && (not false || is_stop_confirmed e.state))
              ≡ true
            → (b ≡ false)
              × (is_none e.authority_revoked ≡ true)
              × (is_ready t.state ≡ true)
              × (may_publish e.state ≡ true)
        split b h = (ground (arith, h), ground (arith, h), ground (arith, h), ground (arith, h))

        checked :
            (b : Bool)
            → Triple Any
                (λ s. Calm w s × (any_row (str_eq id) s.local_worktree_revocations ≡ b))
                (check
                  (not b
                    && is_none e.authority_revoked
                    && is_ready t.state
                    && not (is_none lease)
                    && may_publish e.state
                    && (not false || is_stop_confirmed e.state))
                  (kernel_error writer_authority_lost))
                (λ _ s. Calm w s × Checked)
        checked b =
            Triple-weaken (λ s h. h) (Triple-check _ _ (λ s h. tt))
              λ _ s h.
                let k = split b h.1 in
                (h.0.0, (ap (any_row (str_eq id)) (sym h.0.0.3) ∙ h.0.1 ∙ k.0, k.1, k.2, k.3))

        permitted :
            Checked
            → (p : Principal)
            → first_row (λ x. str_eq x.id e.runtime_principal_id) w.principals ≡ some p
            → (at : ℕ) → Instant w at
            → (l : Lease)
            → (w.leases e.worktree_id ≡ some l) × Authorizes (authority_of e lease) p at l
            → SourceActivation w t.run_id id
            → Permitted w id e
        permitted facts p starter at observed l held source = record {
          worktree = t;
          lease = l;
          runtime = p;
          activation = source.0;
          at = at;
          placed = placed;
          ready = facts.2;
          unrevoked = facts.1;
          unlisted = facts.0;
          publishes = facts.3;
          starter = starter;
          leased = held.0;
          observed = observed;
          authorizes = subst (λ x. Authorizes (authority_of e x) p at l) row held.1;
          source = source.1.0;
          unfinished = source.1.1;
          own = source.1.2;
        }

    -- the catch block always throws
    lost-Triple :
        (error : KernelError)
        → Triple Any Any (lose_authority e error) (λ _ s. Calm w s × Permitted w id e)
    unfolding lose_authority
    lost-Triple error =
        Triple-if (is_internal error.code) _ _ (λ _. Triple-throw error (λ s h. tt))
          λ _. Triple-bind _ _ (Triple-Any (revoke_publication e _)) λ _. Triple-throw _ (λ s h. tt)

    one-Triple :
        Triple Any
          (Calm w)
          (assert_execution_authority id false false e)
          (λ _ s. Calm w s × Permitted w id e)
    unfolding assert_execution_authority require_worktree get_lease
    one-Triple = Triple-next (Calm-find w (λ d. first_row _ d.physical_worktrees) _) λ t placed.
        Triple-next (leased e.worktree_id)
          λ lease row. Triple-catch _ _ (body-Triple t lease placed row) lost-Triple
      where
        leased :
            (k : String)
            → Triple Any (Calm w) (gets (λ s. s.leases k)) (λ x s. Calm w s × (x ≡ w.leases k))
        leased k =
            Triple-weaken (λ s h. h) (Triple-gets _)
              (λ x s h. (h.0, sym h.1 ∙ ap (λ d. d.leases k) h.0.0))

  all-Triple :
      (id : String) (es : List WorktreeExecution)
      → Triple Any
          (Calm w)
          (for_each (assert_execution_authority id false false) es)
          (λ _ s. Calm w s × All (Permitted w id) es)
  unfolding for_each
  all-Triple id [] = Triple-weaken (λ s h. h) (Triple-pure tt) (λ a s h. (h.0, tt))
  all-Triple id (e ∷ es) =
      Triple-next (one-Triple id e)
        λ _ one. Triple-weaken (λ s h. h) (all-Triple id es) (λ a s h. (h.0, (one, h.1)))

  pub authority-Permitted :
      (id : String)
      → Triple Any (Calm w) (assert_activation_writer_authority id false false) (λ _ s.
        Calm w s
        × All (Permitted w id) (where_rows (λ e. str_eq e.activation_id id) w.worktree_executions))
  unfolding assert_activation_writer_authority
  authority-Permitted id = Triple-bind _ _ (Triple-gets _) λ es.
      Triple-weaken (λ s h. (h.0, ap (λ d. rows d.worktree_executions) (sym h.0.0) ∙ h.1))
        (Triple-assume λ same.
          subst
            (λ xs.
              Triple Any (Calm w) (for_each (assert_execution_authority id false false) xs)
                (λ _ s. Calm w s × All (Permitted w id) (rows w.worktree_executions)))
            same (all-Triple id (rows w.worktree_executions)))
        (λ a s h. h)
    where
      rows : List WorktreeExecution → List WorktreeExecution
      rows es = where_rows (λ e. str_eq e.activation_id id) es
