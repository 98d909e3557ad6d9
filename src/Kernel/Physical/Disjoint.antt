-- ===== src/Kernel/Physical/Disjoint.antt =====
-- packages/kernel/src/physical-worktrees.ts: registered directories stay disjoint.
use torsor.Prelude.{
  ◌+◌, ◌∙◌, ◌≡◌, refl, Bool, true, false, not, ◌||◌, List, [], ◌∷◌, ◌++◌, All, any_row,
}
use torsor.Kernel.Errors.{KernelError}
use torsor.Kernel.Action.{final, check}
use torsor.Kernel.Action.Triples.{
  Triple, Triple-gets, Triple-check, Triple-modify, Triple-bind, Triple-weaken, Triple-pure,
  Triple-final, Triple-or_throw,
}
use torsor.Kernel.Rows.{Principal, PhysicalWorktree}
use torsor.Kernel.World.{World, now}
use torsor.Kernel.Activations.Validity.{require_run}
use torsor.Kernel.Physical.Rows.{require_runtime}
use torsor.Kernel.Physical.Register.{
  NodePath, RegisterCommand, overlaps, registered, contains, register_physical_worktree,
}

or_sym : (a b : Bool) → (a || b) ≡ false → (b || a) ≡ false
or_sym true b h = cc
or_sym false true h = cc
or_sym false false h = refl

or_false : (a b : Bool) → (a || b) ≡ false → (a ≡ false) × (b ≡ false)
or_false true b h = cc
or_false false b h = (refl, h)

not-true : (b : Bool) → not b ≡ true → b ≡ false
not-true true h = cc
not-true false h = refl

module _ (paths : NodePath) where
  -- No directory of one Worktree lies in that of another.
  abbrev pub Disjoint : List PhysicalWorktree → Type 0
  Disjoint [] = Unit
  Disjoint (t ∷ ts) = All (λ u. overlaps paths t.directory_path u ≡ false) ts × Disjoint ts

  append_one :
      (ts : List PhysicalWorktree) (new : PhysicalWorktree)
      → Disjoint ts
      → any_row (overlaps paths new.directory_path) ts ≡ false
      → Disjoint (ts ++ new ∷ [])
  unfolding any_row
  append_one [] new h k = (tt, tt)
  append_one (t ∷ ts) new h k =
      let (first, rest) =
        or_false (overlaps paths new.directory_path t)
          (any_row (overlaps paths new.directory_path) ts) k in
      (
        behind ts h.0 (
            or_sym (contains paths t.directory_path new.directory_path)
              (contains paths new.directory_path t.directory_path) first),
        append_one ts new h.1 rest,
      )
    where
      behind :
          (us : List PhysicalWorktree)
          → All (λ u. overlaps paths t.directory_path u ≡ false) us
          → overlaps paths t.directory_path new ≡ false
          → All (λ u. overlaps paths t.directory_path u ≡ false) (us ++ new ∷ [])
      behind [] a b = (b, tt)
      behind (u ∷ us) a b = (a.0, behind us a.1 b)

  abbrev Apart : World → Type 0
  Apart s = Disjoint s.physical_worktrees

  Triple-check-Apart : (b : Bool) (e : KernelError) → Triple Apart Apart (check b e) (λ _. Apart)
  Triple-check-Apart b e = Triple-weaken (λ s h. h) (Triple-check b e (λ s h. h)) (λ a s h. h.0)

  Triple-now-Apart :
      {F : World → Type 0}
      → ((s : World) → F s → F (record s { reads = s.reads + 1 }))
      → ((s : World) → F s → Apart s)
      → Triple Apart F now (λ _. F)
  unfolding now
  Triple-now-Apart keeps k = record { at = keeps }

  register-Triple :
      (c : RegisterCommand) (p : Principal)
      → Triple Apart Apart (register_physical_worktree paths c p) (λ _. Apart)
  unfolding register_physical_worktree require_runtime require_run
  register-Triple c p = Triple-bind _ _ (Triple-check-Apart _ _) λ _.
      Triple-bind _ _ (Triple-check-Apart _ _) λ _. Triple-bind _ _ (Triple-check-Apart _ _) λ _.
        Triple-bind _ _ (Triple-check-Apart _ _) λ _. Triple-bind _ _ (Triple-check-Apart _ _) λ _.
          Triple-bind _ _ (Triple-check-Apart _ _) λ _.
            Triple-bind _ _ (Triple-check-Apart _ _) λ _.
              Triple-bind _ _
                (Triple-bind _ _ (Triple-gets _) λ found.
                  Triple-weaken (λ s h. h.0) (Triple-or_throw found _ (λ s h. h)) (λ a s h. h.0))
                λ _.
                  Triple-bind _ _
                    (Triple-weaken (λ s h. h)
                      (Triple-gets
                        (λ w. any_row (overlaps paths c.directory_path) w.physical_worktrees))
                      (λ a s h. h))
                    λ overlap. Triple-bind _ _ (Triple-check _ _ (λ s h. h.0)) λ _.
                      Triple-bind _ _ (Triple-now-Apart (λ s h. h) (λ s h. h.0.0)) λ at.
                        Triple-bind _ _ (Triple-gets _) λ clash.
                          Triple-bind _ _ (Triple-check _ _ (λ s h. h.0.0.0)) λ _.
                            Triple-bind _ _
                              (Triple-modify _ λ s h.
                                append_one s.physical_worktrees (registered c at) h.0.0.0.0
                                  (h.0.0.0.1 ∙ not-true overlap h.0.0.1))
                              λ _. Triple-weaken (λ s h. h) (Triple-pure _) (λ a s h. h.0)

  -- A registration, also one that throws, keeps the directories of the registered Worktrees disjoint:
  -- by the paths' own comparison none contains another.
  pub register_physical_worktree-Disjoint :
      (c : RegisterCommand) (p : Principal) (w : World)
      → Disjoint w.physical_worktrees
      → Disjoint (final (register_physical_worktree paths c p w)).physical_worktrees
  register_physical_worktree-Disjoint c p w h = Triple-final (λ a s k. k) (register-Triple c p) w h
