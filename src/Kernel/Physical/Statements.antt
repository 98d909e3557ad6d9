-- ===== src/Kernel/Physical/Statements.antt =====
-- packages/kernel/src/physical-worktrees.ts: the writes to executions, each of which lets the rows move on.
use torsor.Prelude.{
  ℕ, String, ◌≡◌, refl, sym, subst, ◌∙◌, inl, inr, Bool, true, false, not, some, Option-cases,
  update_rows,
}
use torsor.Kernel.Action.{pure}
use torsor.Kernel.Action.Triples.{
  Triple, Triple-pure, Triple-gets, Triple-or_throw, Triple-check, Triple-modify, Triple-bind,
  Triple-weaken, Triple-if,
}
use torsor.Kernel.Rows.{WorktreeExecution, ExecutionState, WorktreeState}
use torsor.Kernel.World.{Command, now}
use torsor.Kernel.Physical.Rows.{
  require_execution, is_execution, update_execution, append_event, revoke, revoke_publication, when,
  is_abnormal, set_worktree_state, worktree_state, set_state, record_state,
}
use torsor.Kernel.Physical.Commands.{allows, insert_execution}
use torsor.Kernel.Physical.Advances.{
  Table, here, step, Follows, Follows-refl, ExecutionsFollow, ExecutionsSound,
  ExecutionsFollow-Moves, Moves, ExecutionsFollow-append,
}
use torsor.Kernel.Physical.Known.{
  Known, all-Known, first_row-All, update-Moves, update-Known, Moves-ExecutionsSound,
  insert-ExecutionsSound,
}
use torsor.Kernel.Physical.Frames.{On, Keeps, Keeps-now, Keeps-when}

-- Every revocation that is noted keeps an earlier one.
pub revoke-Follows :
    (at : ℕ) (reason : String) (e : WorktreeExecution) → Follows e (revoke at reason e)
revoke-Follows at reason e = elim (Option-cases e.authority_revoked) [
  | inl h ↦ rw h (record { same = refl; moved = here; process = inr refl; revoked = inl refl })
  | inr (x, h) ↦ rw h (Follows-refl (record e { authority_revoked = some x }))
]

pub revoke-state :
    (at : ℕ) (reason : String) (e : WorktreeExecution)
    → ((revoke at reason e).id ≡ e.id) × ((revoke at reason e).state ≡ e.state)
revoke-state at reason e = elim (Option-cases e.authority_revoked) [
  | inl h ↦ rw h (refl, refl)
  | inr (x, h) ↦ rw h (refl, refl)
]

-- The table holds a version of an execution in the state that was read.
abbrev pub Current : WorktreeExecution → Table → Type 0
Current e t = (y : WorktreeExecution) × (Known y t × (y.id ≡ e.id) × (y.state ≡ e.state))

module _ (t0 : Table) where
  -- the table has only moved on from `t0`
  abbrev pub Kept : Table → Type 0
  Kept t = ExecutionsFollow t0 t × ExecutionsSound t

  abbrev pub KeptKnown : WorktreeExecution → Table → Type 0
  KeptKnown e t = Kept t × Known e t

  abbrev pub KeptCurrent : WorktreeExecution → Table → Type 0
  KeptCurrent e t = Kept t × Current e t

  moved : (u v : Table) → Kept u → Moves u v → Kept v
  moved u v k m = (ExecutionsFollow-Moves t0 u v k.0 m, Moves-ExecutionsSound u v m k.1)

  pub Triple-require_execution :
      (id : String) → Triple (On Kept) (On Kept) (require_execution id) (λ e. On (KeptKnown e))
  unfolding require_execution
  Triple-require_execution id = Triple-bind _ _ (Triple-gets _) λ found.
      Triple-weaken (λ s h. h) (Triple-or_throw found _ (λ s h. h.0))
        λ e s h. (
          h.0.0,
          first_row-All (λ y. Known y s.worktree_executions) (is_execution id) s.worktree_executions
              e (all-Known s.worktree_executions h.0.0.1.ids) (h.0.1 ∙ h.1),
        )

  pub Triple-change :
      (e : WorktreeExecution) (f : WorktreeExecution → WorktreeExecution)
      → ((y : WorktreeExecution) → y.state ≡ e.state → Follows y (f y))
      → Triple (On Kept) (On (KeptCurrent e)) (update_execution e.id f) (λ _. On (λ t.
        Kept t × ((y : WorktreeExecution) × (Known (f y) t × (y.id ≡ e.id) × (y.state ≡ e.state)))))
  unfolding update_execution
  Triple-change e f follows = Triple-modify _ λ s h. changed s.worktree_executions h.0 h.1
    where
      changed :
          (t : Table)
          → Kept t
          → Current e t
          → Kept (update_rows (is_execution e.id) f t)
            × ((y : WorktreeExecution) × (Known (f y) (update_rows (is_execution e.id) f t)
                  × (y.id ≡ e.id)
                  × (y.state ≡ e.state)))
      changed t k (y, (known, id, state)) =
          subst
            (λ i.
              Kept (update_rows (is_execution i) f t)
              × ((z : WorktreeExecution) × (Known (f z) (update_rows (is_execution i) f t)
                    × (z.id ≡ e.id)
                    × (z.state ≡ e.state))))
            id
            (
              moved t (update_rows (is_execution y.id) f t) k
                  (update-Moves y f (follows y state) t known),
              (y, (update-Known y f (follows y state) t known, id, state)),
            )

  -- a change of the row as it was read
  pub Triple-change-Known :
      (e : WorktreeExecution) (f : WorktreeExecution → WorktreeExecution)
      → Follows e (f e)
      → Triple (On Kept) (On (KeptKnown e)) (update_execution e.id f) (λ _. On (KeptKnown (f e)))
  unfolding update_execution
  Triple-change-Known e f follows = Triple-modify _ λ s h. (
    moved s.worktree_executions _ h.0 (update-Moves e f follows s.worktree_executions h.1),
    update-Known e f follows s.worktree_executions h.1,
  )

  now-Triple :
      (e : WorktreeExecution) → Triple (On Kept) (On (KeptCurrent e)) now (λ _. On (KeptCurrent e))
  unfolding now
  now-Triple e = record { at = λ s h. h }

  pub Triple-revoke :
      (e : WorktreeExecution) (reason : String)
      → Triple
          (On Kept)
          (On (KeptCurrent e))
          (revoke_publication e reason)
          (λ _. On (KeptCurrent e))
  unfolding revoke_publication
  Triple-revoke e reason = Triple-bind _ _ (now-Triple e) λ at.
      Triple-weaken (λ s h. h)
        (Triple-change e (revoke at reason) (λ y h. revoke-Follows at reason y))
        λ _ s h. revoked at s.worktree_executions h
    where
      revoked :
          (at : ℕ) (t : Table)
          → (Kept t
              × ((y : WorktreeExecution) × (Known (revoke at reason y) t
                    × (y.id ≡ e.id)
                    × (y.state ≡ e.state))))
          → KeptCurrent e t
      revoked at t (k, (y, (known, id, state))) =
          let (same, same_state) = revoke-state at reason y in
          (k, (revoke at reason y, (known, same ∙ id, same_state ∙ state)))

  pub Triple-when :
      (P : Table → Type 0) (b : Bool) (m : Command Unit)
      → Triple (On Kept) (On P) m (λ _. On P)
      → Triple (On Kept) (On P) (when b m) (λ _. On P)
  unfolding when
  Triple-when P b m k =
      Triple-if b m (pure tt) (λ _. k)
        (λ _. Triple-weaken (λ s h. h) (Triple-pure tt) (λ a s h. h.0))

  worktree-Triple : (id : String) (state : WorktreeState) → Keeps Kept (set_worktree_state id state)
  unfolding set_worktree_state
  worktree-Triple id state = Triple-modify _ (λ s h. h)

  pub event-Triple :
      (id : String) (state : ExecutionState) (evidence : String)
      → Keeps Kept (append_event id state evidence)
  unfolding append_event
  event-Triple id state evidence = Triple-bind _ _ (Keeps-now Kept) λ at. Triple-modify _ (λ s h. h)

  -- A new state is recorded where the table of transitions allows it.
  pub Triple-record_state :
      (e : WorktreeExecution) (state : ExecutionState) (evidence : String)
      → allows e.state state ≡ true
      → Triple (On Kept) (On (KeptCurrent e)) (record_state e state evidence) (λ _. On Kept)
  unfolding record_state
  Triple-record_state e state evidence allowed =
      Triple-bind _ _ (Triple-when (KeptCurrent e) (is_abnormal state) _ (Triple-revoke e _)) λ _.
        Triple-bind _ _
          (Triple-change e (set_state state) λ y same. record {
            same = refl;
            moved = step here (subst (λ s. allows s state ≡ true) (sym same) allowed);
            process = inr refl;
            revoked = inr refl;
          })
          λ _.
            Triple-bind _ _
              (Triple-weaken (λ s h. h.0)
                (Keeps-when Kept _ _ (worktree-Triple e.worktree_id (worktree_state state)))
                (λ a s h. h))
              λ _. event-Triple e.id state evidence

  pub Triple-insert :
      (row : WorktreeExecution) → Triple (On Kept) (On Kept) (insert_execution row) (λ _. On Kept)
  unfolding insert_execution
  Triple-insert row = Triple-bind _ _ (Triple-gets _) λ clash.
      Triple-bind _ _ (Triple-check _ _ (λ s h. h.0)) λ _. Triple-modify _ λ s h. (
        ExecutionsFollow-append t0 s.worktree_executions row h.0.0.0,
        insert-ExecutionsSound s.worktree_executions row h.0.0.1 (h.0.1 ∙ not-true clash h.1),
      )
    where
      not-true : (b : Bool) → not b ≡ true → b ≡ false
      not-true true h = cc
      not-true false h = refl
