-- ===== src/Kernel/Physical/Frames.antt =====
-- packages/kernel/src/physical-worktrees.ts: the checks do not touch the executions.
use torsor.Prelude.{ℕ, String, Bool, false, not, ◌||◌, Option, none, some, leb, is_none}
use torsor.Kernel.Errors.{KernelError}
use torsor.Kernel.Action.{pure, throw, check, gets, modify, or_throw, ◌>>=◌}
use torsor.Kernel.Action.Triples.{
  Triple, Triple-pure, Triple-throw, Triple-gets, Triple-or_throw, Triple-check, Triple-bind,
  Triple-weaken, Triple-if, Triple-modify,
}
use torsor.Kernel.Rows.{
  Principal, Lease, PhysicalWorktree, WorktreeExecution, Operation, write_probe, native_provider,
  Activation, Run, Cause, for_run, for_attention,
}
use torsor.Kernel.World.{World, Command, now, fresh}
use torsor.Kernel.Leases.Rows.{
  get_lease, require_lease, update_lease, is_lapsed, expire_lease, append_event,
}
use torsor.Kernel.Leases.Authority.{LeaseAuthority, refuse_lapsed, require_live_authority}
use torsor.Kernel.Physical.Idle.{assert_physical_worktree_idle}
use torsor.Kernel.Activations.Validity.{
  Scope, Validity, live, dead, require_run, require_attention, require_activation,
  require_live_activation, load_scope_of, load_activation_scope_state, require_live,
  assert_activation_scope_current, run_generation,
}
use torsor.Kernel.Activations.Actors.{require_principal}
use torsor.Kernel.Physical.Rows.{when}
use torsor.Kernel.Physical.Authority.{
  require_source_activation, get_attempt, require_executing_provider, require_native_attempt,
  has_decision, require_execution_authority,
}
use torsor.Kernel.Physical.Commands.{ProviderBinding, require_provider}
use torsor.Kernel.Physical.Advances.{Table}

module _ (Q : Table → Type 0) where
  abbrev pub On : World → Type 0
  On s = Q s.worktree_executions

  -- The action keeps what is said of the executions, also where it throws.
  abbrev pub Keeps : {A : Type 0} → Command A → Type 0
  Keeps m = Triple On On m (λ _. On)

  pub Keeps-pure : {A : Type 0} (a : A) → Keeps (pure a)
  Keeps-pure a = Triple-weaken (λ s h. h) (Triple-pure a) (λ b s h. h.0)

  pub Keeps-throw : {A : Type 0} (e : KernelError) → Keeps {A = A} (throw e)
  Keeps-throw e = Triple-throw e (λ s h. h)

  pub Keeps-check : (b : Bool) (e : KernelError) → Keeps (check b e)
  Keeps-check b e = Triple-weaken (λ s h. h) (Triple-check b e (λ s h. h)) (λ a s h. h.0)

  pub Keeps-gets : {A : Type 0} (f : World → A) → Keeps (gets f)
  Keeps-gets f = Triple-weaken (λ s h. h) (Triple-gets f) (λ a s h. h.0)

  pub Keeps-or_throw : {A : Type 0} (x : Option A) (e : KernelError) → Keeps (or_throw x e)
  Keeps-or_throw x e = Triple-weaken (λ s h. h) (Triple-or_throw x e (λ s h. h)) (λ a s h. h.0)

  pub Keeps-find :
      {A : Type 0} (f : World → Option A) (e : KernelError)
      → Keeps (gets f >>= λ found. or_throw found e)
  Keeps-find f e = Triple-bind _ _ (Keeps-gets f) (λ found. Keeps-or_throw found e)

  pub Keeps-now : Keeps now
  unfolding now
  Keeps-now = record { at = λ s h. h }

  pub Keeps-fresh : (prefix : String) → Keeps (fresh prefix)
  unfolding fresh
  Keeps-fresh prefix = record { at = λ s h. h }

  pub Keeps-when : (b : Bool) (m : Command Unit) → Keeps m → Keeps (when b m)
  unfolding when
  Keeps-when b m k = Triple-if b m (pure tt) (λ _. k) (λ _. Keeps-pure tt)

  expire_lease-Keeps :
      (l : Lease) (actor correlation : String) (at : ℕ)
      → Keeps (expire_lease l actor correlation at)
  unfolding expire_lease update_lease append_event require_lease get_lease modify
  expire_lease-Keeps l actor correlation at =
      Triple-bind _ _ (record { at = λ s h. h })
        λ _. Triple-bind _ _ (Keeps-find _ _) λ gone.
          Triple-bind _ _
            (Triple-bind _ _ (Keeps-fresh _)
              λ id. Triple-bind _ _ Keeps-now λ t. Triple-modify _ (λ s h. h))
            λ _. Keeps-pure _

  pub require_live_authority-Keeps :
      (a : LeaseAuthority) (p : Principal) (at : ℕ) (correlation : String)
      → Keeps (require_live_authority a p at correlation)
  unfolding require_live_authority refuse_lapsed require_lease get_lease
  require_live_authority-Keeps a p at correlation = Triple-bind _ _ (Keeps-check _ _) λ _.
      Triple-bind _ _ (Keeps-check _ _) λ _. Triple-bind _ _ (Keeps-find _ _) λ l.
        Triple-bind _ _
          (Triple-if (is_lapsed l at) _ _
            (λ _. Triple-bind _ _ (expire_lease-Keeps l p.id correlation at) λ _. Keeps-throw _)
            (λ _. Keeps-pure tt))
          λ _. Triple-bind _ _ (Keeps-check _ _) λ _. Triple-bind _ _ (Keeps-check _ _) λ _.
            Triple-bind _ _ (Keeps-check _ _)
              λ _. Triple-bind _ _ (Keeps-check _ _) λ _. Keeps-pure l

  scope-Keeps : (cause : Cause) → Keeps (load_scope_of cause)
  unfolding load_scope_of require_run require_attention
  scope-Keeps (for_run id generation) = Triple-bind _ _ (Keeps-find _ _) λ run. Keeps-pure _
  scope-Keeps (for_attention id token) =
      Triple-bind _ _ (Keeps-find _ _)
        λ attention. Triple-bind _ _ (Keeps-gets _) λ fence. Keeps-pure _

  require_live-Keeps : (scope : Scope) (v : Validity) → Keeps (require_live scope v)
  require_live-Keeps scope live = Keeps-pure tt
  require_live-Keeps scope (dead reason) = Keeps-throw _

  pub require_source_activation-Keeps :
      (run_id activation_id : String) → Keeps (require_source_activation run_id activation_id)
  unfolding require_source_activation require_live_activation require_activation
      assert_activation_scope_current load_activation_scope_state
  require_source_activation-Keeps run_id activation_id =
      Triple-bind _ _
        (Triple-bind _ _ (Keeps-find _ _) λ a. Triple-bind _ _ (Keeps-check _ _) λ _. Keeps-pure a)
        λ a. Triple-bind _ _ (Keeps-check _ _) λ _.
          Triple-bind _ _ (scope-Keeps a.cause)
            λ scope. Triple-bind _ _ Keeps-now λ at. require_live-Keeps scope _

  pub require_provider-Keeps :
      (b : Option ProviderBinding) (id : String) → Keeps (require_provider b id)
  unfolding require_provider require_executing_provider get_attempt
  require_provider-Keeps none id = Keeps-pure tt
  require_provider-Keeps (some b) id = Triple-bind _ _ (Keeps-gets _) λ found.
      Triple-bind _ _ (Keeps-or_throw found _)
        λ attempt. Triple-bind _ _ (Keeps-check _ _) λ _. Keeps-check _ _

  native-Keeps :
      (o : Operation) (id : String) (allow : Bool) → Keeps (require_native_attempt o id allow)
  unfolding require_native_attempt get_attempt
  native-Keeps write_probe id allow = Keeps-pure tt
  native-Keeps (native_provider attempt mode) id allow =
      Triple-bind _ _ (Keeps-gets _) λ found. Keeps-check _ _

  decision-Keeps :
      (allow : Bool) (a : Activation) (run : Run) (id : String)
      → Keeps (has_decision allow a run id)
  unfolding has_decision
  decision-Keeps allow a run id =
      Triple-if (not allow) _ _ (λ _. Keeps-pure false)
        λ _. Triple-bind _ _ Keeps-now λ at.
          Triple-if (leb a.expires_at at || not (is_none a.finished_at)) _ _ (λ _. Keeps-pure false)
            λ _.
              Triple-bind _ _ (Keeps-or_throw (run_generation a) _)
                λ generation. Triple-bind _ _ (Keeps-gets _) λ decided. Keeps-pure _

  pub require_execution_authority-Keeps :
      (e : WorktreeExecution) (t : PhysicalWorktree) (l : Option Lease) (id : String)
      (stopped allow : Bool)
      → Keeps (require_execution_authority e t l id stopped allow)
  unfolding require_execution_authority require_principal require_activation require_run
  require_execution_authority-Keeps e t l id stopped allow =
      Triple-bind _ _ (native-Keeps e.operation id allow) λ _.
        Triple-bind _ _ (Keeps-gets _) λ revoked. Triple-bind _ _ (Keeps-check _ _) λ _.
          Triple-bind _ _ (Keeps-find _ _) λ principal. Triple-bind _ _ Keeps-now λ at.
            Triple-bind _ _ (Keeps-fresh _) λ correlation.
              Triple-bind _ _ (require_live_authority-Keeps _ principal at correlation) λ _.
                Triple-bind _ _ (Keeps-find _ _) λ activation.
                  Triple-bind _ _ (Keeps-find _ _) λ run.
                    Triple-bind _ _ (decision-Keeps allow activation run t.run_id) λ decided.
                      Keeps-when (not decided) _ (require_source_activation-Keeps t.run_id id)

  pub idle-Keeps : (id : String) (durable : Bool) → Keeps (assert_physical_worktree_idle id durable)
  unfolding assert_physical_worktree_idle
  idle-Keeps id durable = Triple-bind _ _ (Keeps-gets _) λ idle. Keeps-check _ _
