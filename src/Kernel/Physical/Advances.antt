-- ===== src/Kernel/Physical/Advances.antt =====
-- packages/kernel/src/physical-worktrees.ts and schema.ts: how the rows of worktree_executions follow
-- one another, and what the indexes of the table demand.
use torsor.Prelude.{
  String, ◌≡◌, refl, sym, ap, subst, ◌∙◌, ◌⊎◌, inl, inr, true, false, Option, none, List, [], ◌∷◌,
  ◌++◌, All, arith, Bool-cases,
}
use torsor.Kernel.Rows.{
  WorktreeExecution, ExecutionState, starting, running, stop_requested, stop_confirmed,
  force_terminated, uncertain, is_stopped,
}
use torsor.Kernel.Physical.Idle.{is_unsettled}
use torsor.Kernel.Physical.Rows.{is_execution}
use torsor.Kernel.Physical.Commands.{allows}

-- A state is reached from another by the transitions of the table `allowed`.
pub data Reaches (s : ExecutionState) : ExecutionState → Type 0 where
  here : Reaches s s
  step : {t u : ExecutionState} → Reaches s t → allows t u ≡ true → Reaches s u

pub Reaches-trans : {s t u : ExecutionState} → Reaches s t → Reaches t u → Reaches s u
Reaches-trans p here = p
Reaches-trans p (step q a) = step (Reaches-trans p q) a

stopped_allows : (s t : ExecutionState) → is_stopped s ≡ true → allows s t ≡ true → ⊥
stopped_allows starting t h k = cc
stopped_allows running t h k = cc
stopped_allows stop_requested t h k = cc
stopped_allows uncertain t h k = cc
stopped_allows stop_confirmed t h k = cc
stopped_allows force_terminated t h k = cc

-- Nothing follows a stopped state.
pub Reaches-stopped : {s t : ExecutionState} → Reaches s t → is_stopped s ≡ true → t ≡ s
Reaches-stopped here h = refl
Reaches-stopped (step {t} {u} p a) h =
    absurd (stopped_allows t u (subst (λ x. is_stopped x ≡ true) (sym (Reaches-stopped p h)) h) a)

-- the columns that are never updated
abbrev pub identity : WorktreeExecution → WorktreeExecution
identity e = record e { state = starting; pid = none; authority_revoked = none }

-- A later version of a row: the same execution, in a state reached from the earlier one; the process
-- and a revocation, once they are known, are the same.
pub record Follows (x y : WorktreeExecution) : Type 0 where
  pub same : identity y ≡ identity x
  pub moved : Reaches x.state y.state
  pub process : (x.pid ≡ none) ⊎ (y.pid ≡ x.pid)
  pub revoked : (x.authority_revoked ≡ none) ⊎ (y.authority_revoked ≡ x.authority_revoked)

abbrev pub Table : Type 0
Table = List WorktreeExecution

-- Each row of the earlier table is followed by the row in its place; new rows stand behind.
abbrev pub ExecutionsFollow : Table → Table → Type 0
ExecutionsFollow [] ys = Unit
ExecutionsFollow (x ∷ xs) [] = ⊥
ExecutionsFollow (x ∷ xs) (y ∷ ys) = Follows x y × ExecutionsFollow xs ys

-- No two rows share an id.
abbrev pub DistinctIds : Table → Type 0
DistinctIds [] = Unit
DistinctIds (x ∷ xs) = All (λ y. is_execution x.id y ≡ false) xs × DistinctIds xs

-- At most one execution of a Worktree is not known to have stopped.
abbrev pub OneUnsettled : Table → Type 0
OneUnsettled [] = Unit
OneUnsettled (x ∷ xs) =
    ((is_stopped x.state ≡ true) ⊎ All (λ y. is_unsettled x.worktree_id y ≡ false) xs)
    × OneUnsettled xs

pub record ExecutionsSound (t : Table) : Type 0 where
  pub ids : DistinctIds t
  pub unsettled : OneUnsettled t

either_trans :
    {A : Type 0} (x y z : Option A)
    → (x ≡ none) ⊎ (y ≡ x)
    → (y ≡ none) ⊎ (z ≡ y)
    → (x ≡ none) ⊎ (z ≡ x)
either_trans x y z (inl h) k = inl h
either_trans x y z (inr h) (inl k) = inl (sym h ∙ k)
either_trans x y z (inr h) (inr k) = inr (k ∙ h)

pub Follows-refl : (x : WorktreeExecution) → Follows x x
Follows-refl x = record { same = refl; moved = here; process = inr refl; revoked = inr refl }

pub Follows-trans : (x y z : WorktreeExecution) → Follows x y → Follows y z → Follows x z
Follows-trans x y z h k = record {
  same = k.same ∙ h.same;
  moved = Reaches-trans h.moved k.moved;
  process = either_trans x.pid y.pid z.pid h.process k.process;
  revoked =
      either_trans x.authority_revoked y.authority_revoked z.authority_revoked h.revoked k.revoked;
}

pub ExecutionsFollow-refl : (t : Table) → ExecutionsFollow t t
ExecutionsFollow-refl [] = tt
ExecutionsFollow-refl (x ∷ xs) = (Follows-refl x, ExecutionsFollow-refl xs)

-- Two tables of the same rows, each followed by the one in its place.
abbrev pub Moves : Table → Table → Type 0
Moves [] [] = Unit
Moves [] (y ∷ ys) = ⊥
Moves (x ∷ xs) [] = ⊥
Moves (x ∷ xs) (y ∷ ys) = Follows x y × Moves xs ys

pub ExecutionsFollow-Moves :
    (t u v : Table) → ExecutionsFollow t u → Moves u v → ExecutionsFollow t v
ExecutionsFollow-Moves [] u v h k = tt
ExecutionsFollow-Moves (x ∷ xs) [] v h k = elim h [ ]
ExecutionsFollow-Moves (x ∷ xs) (y ∷ ys) [] h k = elim k [ ]
ExecutionsFollow-Moves (x ∷ xs) (y ∷ ys) (z ∷ zs) h k =
    (Follows-trans x y z h.0 k.0, ExecutionsFollow-Moves xs ys zs h.1 k.1)

pub ExecutionsFollow-append :
    (t u : Table) (e : WorktreeExecution) → ExecutionsFollow t u → ExecutionsFollow t (u ++ e ∷ [])
ExecutionsFollow-append [] u e h = tt
ExecutionsFollow-append (x ∷ xs) [] e h = elim h [ ]
ExecutionsFollow-append (x ∷ xs) (y ∷ ys) e h = (h.0, ExecutionsFollow-append xs ys e h.1)

same_id : (x y : WorktreeExecution) → Follows x y → y.id ≡ x.id
same_id x y h = ap (λ e. e.id) h.same

-- An execution that has stopped stays so.
stays_stopped :
    (x y : WorktreeExecution) → Follows x y → is_stopped x.state ≡ true → is_stopped y.state ≡ true
stays_stopped x y h k = subst (λ s. is_stopped s ≡ true) (sym (Reaches-stopped h.moved k)) k

stays_settled :
    (id : String) (x y : WorktreeExecution)
    → Follows x y
    → is_unsettled id x ≡ false
    → is_unsettled id y ≡ false
stays_settled id x y h k = elim (Bool-cases (is_stopped x.state)) [
  | inl s ↦ ground (arith, stays_stopped x y h s)
  | inr s ↦ ground (arith, ap (λ e. e.worktree_id) h.same)
]

All-Moves :
    (P Q : WorktreeExecution → Type 0)
    → ((x y : WorktreeExecution) → Follows x y → P x → Q y)
    → (u v : Table) → Moves u v
    → All P u
    → All Q v
All-Moves P Q f [] [] m h = tt
All-Moves P Q f [] (y ∷ ys) m h = elim m [ ]
All-Moves P Q f (x ∷ xs) [] m h = elim m [ ]
All-Moves P Q f (x ∷ xs) (y ∷ ys) m h = (f x y m.0 h.0, All-Moves P Q f xs ys m.1 h.1)

pub DistinctIds-Moves : (u v : Table) → Moves u v → DistinctIds u → DistinctIds v
DistinctIds-Moves [] [] m h = tt
DistinctIds-Moves [] (y ∷ ys) m h = elim m [ ]
DistinctIds-Moves (x ∷ xs) [] m h = elim m [ ]
DistinctIds-Moves (x ∷ xs) (y ∷ ys) m h = (
  All-Moves (λ z. is_execution x.id z ≡ false) (λ z. is_execution y.id z ≡ false)
      (λ z z' f e. rw (same_id x y m.0, same_id z z' f) e) xs ys m.1 h.0,
  DistinctIds-Moves xs ys m.1 h.1,
)

pub OneUnsettled-Moves : (u v : Table) → Moves u v → OneUnsettled u → OneUnsettled v
OneUnsettled-Moves [] [] m h = tt
OneUnsettled-Moves [] (y ∷ ys) m h = elim m [ ]
OneUnsettled-Moves (x ∷ xs) [] m h = elim m [ ]
OneUnsettled-Moves (x ∷ xs) (y ∷ ys) m h = (settled h.0, OneUnsettled-Moves xs ys m.1 h.1)
  where
    settled :
        (is_stopped x.state ≡ true) ⊎ All (λ z. is_unsettled x.worktree_id z ≡ false) xs
        → (is_stopped y.state ≡ true) ⊎ All (λ z. is_unsettled y.worktree_id z ≡ false) ys
    settled (inl s) = inl (stays_stopped x y m.0 s)
    settled (inr a) = inr (
        All-Moves (λ z. is_unsettled x.worktree_id z ≡ false)
          (λ z. is_unsettled y.worktree_id z ≡ false)
          (λ z z' f e.
            subst (λ i. is_unsettled i z' ≡ false) (sym (ap (λ r. r.worktree_id) m.0.same))
              (stays_settled x.worktree_id z z' f e))
          xs ys m.1 a)
