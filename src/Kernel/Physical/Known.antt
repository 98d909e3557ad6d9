-- ===== src/Kernel/Physical/Known.antt =====
-- packages/kernel/src/physical-worktrees.ts: an execution that was read is the row with its id.
use torsor.Prelude.{
  ◌≡◌, refl, sym, ap, subst, ◌⊎◌, inl, inr, Bool, true, false, ◌||◌, Option, some, [], ◌∷◌, ◌++◌,
  All, arith, eq_iff, eq_refl, any_row, update_rows, first_row, where_rows, if◌then◌else◌,
  Bool-cases,
}
use torsor.Kernel.Rows.{WorktreeExecution, is_stopped}
use torsor.Kernel.Physical.Idle.{is_unsettled}
use torsor.Kernel.Physical.Rows.{is_execution}
use torsor.Kernel.Physical.Advances.{
  Table, Follows, Follows-refl, Moves, DistinctIds, ExecutionsSound, DistinctIds-Moves,
  OneUnsettled-Moves,
}

-- A row with the id of an execution is that execution.
abbrev pub Agrees : WorktreeExecution → WorktreeExecution → Type 0
Agrees e y = (is_execution e.id y ≡ false) ⊎ (y ≡ e)

abbrev pub Known : WorktreeExecution → Table → Type 0
Known e t = All (Agrees e) t

different-Agrees :
    (e : WorktreeExecution) (t : Table) → All (λ y. is_execution e.id y ≡ false) t → Known e t
different-Agrees e [] h = tt
different-Agrees e (y ∷ ys) h = (inl h.0, different-Agrees e ys h.1)

is_execution_sym :
    (x e : WorktreeExecution) → is_execution x.id e ≡ false → is_execution e.id x ≡ false
is_execution_sym x e h = ground (arith, eq_iff e.id x.id, eq_iff x.id e.id)

all-Known_behind :
    (x : WorktreeExecution) (t es : Table)
    → All (λ y. is_execution x.id y ≡ false) es
    → All (λ e. Known e t) es
    → All (λ e. Known e (x ∷ t)) es
all-Known_behind x t [] n h = tt
all-Known_behind x t (e ∷ es) n h =
    ((inl (is_execution_sym x e n.0), h.0), all-Known_behind x t es n.1 h.1)

-- Where ids are distinct, every row is known.
pub all-Known : (t : Table) → DistinctIds t → All (λ e. Known e t) t
all-Known [] h = tt
all-Known (x ∷ xs) h =
    ((inr refl, different-Agrees x xs h.0), all-Known_behind x xs xs h.0 (all-Known xs h.1))

pub All-where :
    (P : WorktreeExecution → Type 0) (test : WorktreeExecution → Bool) (t : Table)
    → All P t
    → All P (where_rows test t)
unfolding where_rows
All-where P test [] h = tt
All-where P test (x ∷ xs) h = elim (Bool-cases (test x)) [
  | inl e ↦ rw e (h.0, All-where P test xs h.1)
  | inr e ↦ rw e (All-where P test xs h.1)
]

some_equal :
    {d e : WorktreeExecution} → ◌≡◌ {A = Option WorktreeExecution} (some d) (some e) → d ≡ e
some_equal h = cc

pub first_row-All :
    (P : WorktreeExecution → Type 0) (test : WorktreeExecution → Bool) (t : Table)
    (e : WorktreeExecution)
    → All P t
    → first_row test t ≡ some e
    → P e
unfolding first_row
first_row-All P test [] e h f = cc
first_row-All P test (x ∷ xs) e h f = found (test x) (first_row-All P test xs e h.1) f
  where
    found :
        (b : Bool)
        → (first_row test xs ≡ some e → P e)
        → (if b then some x else first_row test xs) ≡ some e
        → P e
    found true later g = subst P (some_equal g) h.0
    found false later g = later g

-- What an update of a known row does.
module _ (e : WorktreeExecution) (f : WorktreeExecution → WorktreeExecution)
    (follows : Follows e (f e)) where
  same : (f e).id ≡ e.id
  same = ap (λ r. r.id) follows.same

  row_cases :
      (y : WorktreeExecution)
      → Agrees e y
      → Follows y (if is_execution e.id y then f y else y)
        × Agrees (f e) (if is_execution e.id y then f y else y)
  row_cases y (inl h) = rw h (Follows-refl y, inl (rw (same) h))
  row_cases y (inr h) =
      subst
        (λ z.
          Follows z (if is_execution e.id z then f z else z)
          × Agrees (f e) (if is_execution e.id z then f z else z))
        (sym h) (rw (eq_refl e.id) (follows, inr refl))

  pub update-Moves : (t : Table) → Known e t → Moves t (update_rows (is_execution e.id) f t)
  unfolding update_rows
  update-Moves [] h = tt
  update-Moves (y ∷ ys) h = ((row_cases y h.0).0, update-Moves ys h.1)

  pub update-Known : (t : Table) → Known e t → Known (f e) (update_rows (is_execution e.id) f t)
  unfolding update_rows
  update-Known [] h = tt
  update-Known (y ∷ ys) h = ((row_cases y h.0).1, update-Known ys h.1)

pub Moves-ExecutionsSound : (u v : Table) → Moves u v → ExecutionsSound u → ExecutionsSound v
Moves-ExecutionsSound u v m s = record {
  ids = DistinctIds-Moves u v m s.ids;
  unsettled = OneUnsettled-Moves u v m s.unsettled;
}

or_false : (a b : Bool) → (a || b) ≡ false → (a ≡ false) × (b ≡ false)
or_false true b h = cc
or_false false b h = (refl, h)

All-append_one :
    (P : WorktreeExecution → Type 0) (t : Table) (e : WorktreeExecution)
    → All P t
    → P e
    → All P (t ++ e ∷ [])
All-append_one P [] e h k = (k, tt)
All-append_one P (x ∷ xs) e h k = (h.0, All-append_one P xs e h.1 k)

settled_before :
    (d e : WorktreeExecution)
    → is_unsettled e.worktree_id d ≡ false
    → (is_stopped d.state ≡ true) ⊎ (is_unsettled d.worktree_id e ≡ false)
settled_before d e h = elim (Bool-cases (is_stopped d.state)) [
  | inl s ↦ inl s
  | inr s ↦
      inr (ground (arith, eq_iff d.worktree_id e.worktree_id, eq_iff e.worktree_id d.worktree_id))
]

-- A new row under the two unique indexes.
pub insert-ExecutionsSound :
    (t : Table) (e : WorktreeExecution)
    → ExecutionsSound t
    → any_row (λ d. is_execution e.id d || is_unsettled e.worktree_id d) t ≡ false
    → ExecutionsSound (t ++ e ∷ [])
unfolding any_row
insert-ExecutionsSound [] e s h = record { ids = (tt, tt); unsettled = (inr tt, tt) }
insert-ExecutionsSound (d ∷ ds) e s h =
    let (front, rest) = or_false _ _ h in
    let (new_id, free) = or_false _ _ front in
    let later =
      insert-ExecutionsSound ds e (record { ids = s.ids.1; unsettled = s.unsettled.1 }) rest in
    record {
      ids = (
        All-append_one (λ y. is_execution d.id y ≡ false) ds e s.ids.0
            (is_execution_sym e d new_id),
        later.ids,
      );
      unsettled = (settled (s.unsettled.0) (settled_before d e free), later.unsettled);
    }
  where
    settled :
        (is_stopped d.state ≡ true) ⊎ All (λ y. is_unsettled d.worktree_id y ≡ false) ds
        → (is_stopped d.state ≡ true) ⊎ (is_unsettled d.worktree_id e ≡ false)
        → (is_stopped d.state ≡ true)
          ⊎ All (λ y. is_unsettled d.worktree_id y ≡ false) (ds ++ e ∷ [])
    settled (inl a) b = inl a
    settled (inr a) (inl b) = inl b
    settled (inr a) (inr b) =
        inr (All-append_one (λ y. is_unsettled d.worktree_id y ≡ false) ds e a b)
