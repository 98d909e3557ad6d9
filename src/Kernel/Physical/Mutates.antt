-- ===== src/Kernel/Physical/Mutates.antt =====
-- packages/kernel/src/physical-worktrees.ts: what allows a mutation of a Worktree.
use torsor.Prelude.{
  ◌+◌, ◌≤◌, ℕ, ◌≡◌, refl, sym, ap, subst, ◌∙◌, Bool, true, false, ◌&&◌, Option, some, List, [], ◌∷◌,
  All, arith, str_eq, eq_iff, first_row, where_rows, if◌then◌else◌, ◌==◌, and_true,
}
use torsor.Kernel.Action.{returned, ◌>>=◌, gets, or_throw}
use torsor.Kernel.Action.Triples.{
  Triple, Triple-pure, Triple-gets, Triple-or_throw, Triple-check, Triple-bind, Triple-next,
  Triple-weaken, Triple-returned, Triple-assume,
}
use torsor.Kernel.Errors.{KernelError}
use torsor.Kernel.Rows.{Principal, Lease, WorktreeExecution, PhysicalWorktree, is_ready}
use torsor.Kernel.World.{World}
use torsor.Kernel.ReadOnly.{Any}
use torsor.Kernel.Leases.Authority.{LeaseAuthority}
use torsor.Kernel.Leases.Authorized.{Authorizes}
use torsor.Kernel.Physical.Calm.{Calm, Observed-now, Observed-fresh, Calm-authority}
use torsor.Kernel.Physical.Permitted.{Permitted, authority-Permitted}
use torsor.Kernel.Physical.Idle.{is_worktree}
use torsor.Kernel.Physical.Rows.{
  require_runtime, require_execution, require_worktree, require_receipt, is_execution, Receipt,
}
use torsor.Kernel.Physical.Authority.{assert_worktree_mutation, is_fenced_by, may_mutate}

-- The execution was started by this executor and principal, under the lease generation and fencing
-- token of the authority, and is starting or running in a Worktree that is Ready.
pub record Executes (w : World) (a : LeaseAuthority) (r : Receipt) (p : Principal)
    (e : WorktreeExecution) : Type 0 where
  pub stored : first_row (is_execution r.execution_id) w.worktree_executions ≡ some e
  pub executor : e.executor_id ≡ r.executor_id
  pub token : e.execution_token ≡ r.execution_token
  pub starter : e.runtime_principal_id ≡ p.id
  pub worktree : e.worktree_id ≡ a.worktree_id
  pub generation : e.generation ≡ a.generation
  pub fencing : e.fencing_token ≡ a.fencing_token
  pub running : may_mutate e.state ≡ true
  pub ready :
      (t : PhysicalWorktree) × ((first_row (is_worktree a.worktree_id) w.physical_worktrees
          ≡ some t)
        × (is_ready t.state ≡ true))

same_number : (n m : ℕ) → (n == m) ≡ true → n ≡ m
same_number n m h = ground arith

-- The lease that a mutation rests on when it is allowed, at the last instant that the check reads from
-- the clock.
abbrev pub Held : LeaseAuthority → Principal → World → World → Type 0
Held a p w w' =
    (n : ℕ) × ((w'.reads ≡ n + 1)
      × (w.reads ≤ n)
      × ((l : Lease) × ((w.leases a.worktree_id ≡ some l) × Authorizes a p (w.clock n) l)))

-- the executions of the Activation of an execution
abbrev pub siblings : WorktreeExecution → List WorktreeExecution → List WorktreeExecution
siblings e es = where_rows (λ x. str_eq x.activation_id e.activation_id) es

-- What a mutation rests on that is allowed from the first state to the second: the execution, the permission of it and of every execution of its
-- Activation, and the lease.
pub record Mutates (w w' : World) (a : LeaseAuthority) (r : Receipt) (p : Principal) : Type 0 where
  pub execution : WorktreeExecution
  pub executes : Executes w a r p execution
  pub permitted : Permitted w execution.activation_id execution
  pub all_permitted :
      All (Permitted w execution.activation_id) (siblings execution w.worktree_executions)
  pub held : Held a p w w'

-- a row that is found and passes the test is among the rows that pass the test
All-first :
    {A : Type 0} (P : A → Type 0) (p test : A → Bool) (x : A)
    → test x ≡ true
    → (xs : List A) → first_row p xs ≡ some x
    → All P (where_rows test xs)
    → P x
unfolding first_row where_rows
All-first P p test x own [] e h = cc
All-first P p test x own (y ∷ ys) e h = go (p y) (test y) (All-first P p test x own ys) refl e h
  where
    one : some y ≡ some x → y ≡ x
    one q = cc

    go :
        (b c : Bool)
        → (first_row p ys ≡ some x → All P (where_rows test ys) → P x)
        → test y ≡ c
        → (if b then some y else first_row p ys) ≡ some x
        → All P (if c then y ∷ where_rows test ys else where_rows test ys)
        → P x
    go true true k l q g = subst P (one q) g.0
    go true false k l q g = absurd (ground (arith, l, own, ap test (one q)))
    go false true k l q g = k q g.1
    go false false k l q g = k q g

module _ (a : LeaseAuthority) (r : Receipt) (p : Principal) (w : World) where
  abbrev Still : World → Type 0
  Still s = s ≡ w

  Triple-find :
      {A : Type 0} (f : World → Option A) (x : KernelError)
      → Triple Any Still (gets f >>= λ found. or_throw found x) (λ e s. Still s × (f w ≡ some e))
  Triple-find f x = Triple-bind _ _ (Triple-gets f) λ found.
      Triple-weaken (λ s h. h) (Triple-or_throw found x (λ s h. tt))
        λ e s h. (h.0.0, ap f (sym h.0.0) ∙ h.0.1 ∙ h.1)

  mutation-Triple :
      Triple Any Still (assert_worktree_mutation a r p) (λ _ s. (s.db ≡ w.db) × Mutates w s a r p)
  unfolding assert_worktree_mutation require_runtime require_execution require_worktree
      require_receipt
  mutation-Triple = Triple-next (Triple-check _ _ (λ s h. tt)) λ _ _.
      Triple-next (Triple-find _ _) λ e stored.
        Triple-next (Triple-check _ _ (λ s h. tt)) λ _ receipt.
          Triple-next (Triple-find _ _) λ t placed.
            Triple-next (Triple-check _ _ (λ s h. tt)) λ _ current.
              Triple-bind _ _
                (Triple-weaken still (authority-Permitted w e.activation_id) (λ _ s h. h))
                λ _. Triple-assume λ all. Triple-bind _ _ (Observed-now w) λ at.
                  Triple-bind _ _ (Observed-fresh w "corr" at) λ correlation.
                    Triple-next (Calm-authority w (λ s h. h.0) a p at correlation) λ l held.
                      Triple-weaken (λ s h. h) (Triple-pure tt)
                        λ _ s h. (
                          h.0.0.0,
                          record {
                            execution = e;
                            executes = executes e t stored receipt placed current;
                            permitted =
                                All-first (Permitted w e.activation_id)
                                  (is_execution r.execution_id)
                                  (λ x. str_eq x.activation_id e.activation_id) e
                                  ((eq_iff e.activation_id e.activation_id).1 refl)
                                  w.worktree_executions stored all;
                            all_permitted = all;
                            held = (
                              h.0.1.0,
                              (
                                h.0.1.1.0,
                                h.0.1.1.1,
                                (l, (held.0, subst (λ i. Authorizes a p i l) h.0.1.1.2 held.1)),
                              ),
                            );
                          },
                        )
    where
      still : (s : World) → s ≡ w → Calm w s
      still s h = subst (Calm w) (sym h) (refl, refl, omega arith, refl)

      executes :
          (e : WorktreeExecution) (t : PhysicalWorktree)
          → first_row (is_execution r.execution_id) w.worktree_executions ≡ some e
          → (str_eq e.executor_id r.executor_id
              && str_eq e.execution_token r.execution_token
              && str_eq e.runtime_principal_id p.id)
            ≡ true
          → first_row (is_worktree a.worktree_id) w.physical_worktrees ≡ some t
          → (is_fenced_by a e && may_mutate e.state && is_ready t.state) ≡ true
          → Executes w a r p e
      executes e t stored receipt placed current =
          let (receipt1, starter) =
            and_true
              (str_eq e.executor_id r.executor_id && str_eq e.execution_token r.execution_token)
              (str_eq e.runtime_principal_id p.id) receipt in
          let (executor, token) =
            and_true (str_eq e.executor_id r.executor_id)
              (str_eq e.execution_token r.execution_token) receipt1 in
          let (current1, ready) =
            and_true (is_fenced_by a e && may_mutate e.state) (is_ready t.state) current in
          let (fenced, running) = and_true (is_fenced_by a e) (may_mutate e.state) current1 in
          let (fenced1, fencing) =
            and_true (str_eq e.worktree_id a.worktree_id && e.generation == a.generation)
              (e.fencing_token == a.fencing_token) fenced in
          let (worktree, generation) =
            and_true (str_eq e.worktree_id a.worktree_id) (e.generation == a.generation) fenced1 in
          record {
            stored = stored;
            executor = (eq_iff e.executor_id r.executor_id).0 executor;
            token = (eq_iff e.execution_token r.execution_token).0 token;
            starter = (eq_iff e.runtime_principal_id p.id).0 starter;
            worktree = (eq_iff e.worktree_id a.worktree_id).0 worktree;
            generation = same_number e.generation a.generation generation;
            fencing = same_number e.fencing_token a.fencing_token fencing;
            running = running;
            ready = (t, (placed, ready));
          }

-- A mutation of a Worktree that is allowed writes nothing, and rests on a stored execution that this
-- executor and principal started under exactly the lease generation and fencing token of the authority,
-- that is starting or running in a Worktree that is Ready; on the permission of this execution and of
-- every other of its Activation: its Worktree is Ready, its lease authorizes its runtime under its own
-- generation and fencing token at an instant that the clock shows during the check or after, neither
-- its authority nor, in this process, its Activation's is revoked, its state lets it publish, and its
-- Activation has not finished and is for the Worktree's Run; and on the Worktree's lease, which at the
-- last instant that the check reads is Active, unexpired, held by the principal and carries exactly
-- the authority.
pub assert_worktree_mutation-Executes :
    (a : LeaseAuthority) (r : Receipt) (p : Principal) (w w' : World)
    → assert_worktree_mutation a r p w ≡ returned tt w'
    → (w'.db ≡ w.db) × Mutates w w' a r p
assert_worktree_mutation-Executes a r p w w' h = Triple-returned (mutation-Triple a r p w) w refl h
