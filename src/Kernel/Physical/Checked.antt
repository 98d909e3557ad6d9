-- ===== src/Kernel/Physical/Checked.antt =====
-- packages/kernel/src/physical-worktrees.ts: the check of the authority to write.
use torsor.Prelude.{String, refl, subst, Bool, Option, List, [], ◌∷◌, All}
use torsor.Kernel.Errors.{KernelError}
use torsor.Kernel.Action.{gets, or_throw, for_each, ◌>>=◌}
use torsor.Kernel.Action.Triples.{
  Triple, Triple-pure, Triple-throw, Triple-gets, Triple-bind, Triple-weaken, Triple-if,
  Triple-catch, Triple-throws,
}
use torsor.Kernel.Rows.{WorktreeExecution}
use torsor.Kernel.World.{World, Command}
use torsor.Kernel.Leases.Rows.{get_lease}
use torsor.Kernel.Physical.Rows.{require_worktree}
use torsor.Kernel.Physical.Authority.{
  lose_authority, assert_execution_authority, assert_activation_writer_authority, is_internal,
}
use torsor.Kernel.Physical.Advances.{Table}
use torsor.Kernel.Physical.Known.{Known, all-Known, All-where}
use torsor.Kernel.Physical.Frames.{
  On, Keeps, Keeps-gets, Keeps-find, require_execution_authority-Keeps,
}
use torsor.Kernel.Physical.Statements.{Current, Kept, Triple-revoke}

pub Known-Current : (e : WorktreeExecution) (t : Table) → Known e t → Current e t
Known-Current e t h = (e, (h, refl, refl))

module _ (t0 : Table) where
  abbrev pub K : World → Type 0
  K = On (Kept t0)

  -- What is known of a list of executions.
  abbrev AllKnown : List WorktreeExecution → Table → Type 0
  AllKnown es t = Kept t0 t × All (λ e. Known e t) es

  lose-Triple :
      (e : WorktreeExecution) (es : List WorktreeExecution) (error : KernelError)
      → Triple K (On (AllKnown (e ∷ es))) (lose_authority e error) (λ _. On (AllKnown (e ∷ es)))
  unfolding lose_authority
  lose-Triple e es error =
      Triple-if (is_internal error.code) _ _ (λ _. Triple-throw error (λ s h. h.0))
        λ _.
          Triple-bind _ _
            (Triple-weaken (λ s h. (h.0, Known-Current e s.worktree_executions h.1.0))
              (Triple-revoke t0 e _) (λ a s h. h))
            λ _. Triple-throw _ (λ s h. h.0)

  one-Triple :
      (id : String) (stopped allow : Bool) (e : WorktreeExecution) (es : List WorktreeExecution)
      → Triple K
          (On (AllKnown (e ∷ es)))
          (assert_execution_authority id stopped allow e)
          (λ _. On (AllKnown (e ∷ es)))
  unfolding assert_execution_authority require_worktree get_lease
  one-Triple id stopped allow e es = Triple-bind _ _ (find-Triple _ _) λ worktree.
      Triple-bind _ _ (Keeps-to (Keeps-gets (AllKnown (e ∷ es)) _)) λ lease.
        Triple-catch _ _
          (require_execution_authority-Keeps (AllKnown (e ∷ es)) e worktree lease id stopped allow)
          (lose-Triple e es)
    where
      Keeps-to :
          {A : Type 0} {m : Command A}
          → Keeps (AllKnown (e ∷ es)) m
          → Triple K (On (AllKnown (e ∷ es))) m (λ _. On (AllKnown (e ∷ es)))
      Keeps-to k = Triple-throws (λ s h. h.0) k

      find-Triple :
          {A : Type 0} (f : World → Option A) (x : KernelError)
          → Triple K
              (On (AllKnown (e ∷ es)))
              (gets f >>= λ found. or_throw found x)
              (λ _. On (AllKnown (e ∷ es)))
      find-Triple f x = Keeps-to (Keeps-find (AllKnown (e ∷ es)) f x)

  all-Triple :
      (id : String) (stopped allow : Bool) (es : List WorktreeExecution)
      → Triple K
          (On (AllKnown es))
          (for_each (assert_execution_authority id stopped allow) es)
          (λ _. K)
  unfolding for_each
  all-Triple id stopped allow [] = Triple-weaken (λ s h. h) (Triple-pure tt) (λ a s h. h.0.0)
  all-Triple id stopped allow (e ∷ es) =
      Triple-bind _ _ (one-Triple id stopped allow e es)
        λ _. Triple-weaken (λ s h. (h.0, h.1.1)) (all-Triple id stopped allow es) (λ a s h. h)

  pub assert_activation_writer_authority-Triple :
      (id : String) (stopped allow : Bool)
      → Triple K K (assert_activation_writer_authority id stopped allow) (λ _. K)
  unfolding assert_activation_writer_authority
  assert_activation_writer_authority-Triple id stopped allow =
      Triple-bind _ _
        (Triple-weaken (λ s h. h) (Triple-gets _)
          λ es s h. (
            h.0,
            subst (All (λ e. Known e s.worktree_executions)) h.1 (
                All-where (λ e. Known e s.worktree_executions) _ s.worktree_executions
                  (all-Known s.worktree_executions h.0.1.ids)),
          ))
        λ es. all-Triple id stopped allow es
