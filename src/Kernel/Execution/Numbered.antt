-- ===== src/Kernel/Execution/Numbered.antt =====
-- packages/kernel/src/execution.ts: the activity of a Run is numbered without repetition.
use torsor.Prelude.{
  ℕ, ◌≤◌, ◌<◌, ◌≢◌, String, ◌≡◌, refl, sym, ap, subst, ◌∙◌, ◌⊎◌, Bool, true, false, Option, some,
  List, [], ◌∷◌, ◌++◌, All, inl, inr, arith, Bool-cases, str_eq, eq_iff, first_row, update_rows,
  if◌then◌else◌,
}
use torsor.Kernel.Action.{returned}
use torsor.Kernel.Action.Triples.{Triple-find, Triple, Triple-modify, Triple-bind, Triple-returned}
use torsor.Kernel.Rows.{Principal, Cause, Run, RunActivity}
use torsor.Kernel.World.{World}
use torsor.Kernel.ReadOnly.{Any}
use torsor.Kernel.Results.{CommandResult}
use torsor.Kernel.Activations.Validity.{require_run}
use torsor.Kernel.Runs.Commands.{is_run, update_run}
use torsor.Kernel.Runs.Ended.{first_row-test}
use torsor.Kernel.Frames.{Stable, Kept-now, Kept-fresh, Kept-check, Kept-pure}
use torsor.Kernel.Execution.Activities.{Activity, activity_row, number_next, insert_activity}
use torsor.Kernel.Execution.Dispatch.{ActivationCommand, dispatch_activation}
use torsor.Kernel.Execution.Invariants.{Invariant, Stable-rows}
use torsor.Kernel.Execution.Kept.{dispatch-Kept}

-- what the number of one activity is below
abbrev pub IsBelow : String → ℕ → RunActivity → Type 0
IsBelow id next a = str_eq a.run_id id ≡ true → a.sequence < next

-- no two activities of a Run have one number
abbrev pub Distinct : List RunActivity → Type 0
Distinct [] = Unit
Distinct (x ∷ xs) =
    All (λ y. str_eq x.run_id y.run_id ≡ true → y.sequence ≢ x.sequence) xs × Distinct xs

-- No two activities of a Run have one number, and the next number of a Run is above them all.
pub record Numbered (runs : List Run) (t : List RunActivity) : Type 0 where
  pub distinct : Distinct t
  pub below :
      (id : String) (r : Run)
      → first_row (is_run id) runs ≡ some r
      → All (IsBelow id r.next_activity_sequence) t

-- the row that a query finds after an update, and the row that it found before
found_before :
    (test p : Run → Bool) (f : Run → Run)
    → ((r : Run) → test (f r) ≡ test r)
    → (xs : List Run) (y : Run) → first_row test (update_rows p f xs) ≡ some y
    → (x : Run) × ((first_row test xs ≡ some x)
        × (((p x ≡ false) × (y ≡ x)) ⊎ ((p x ≡ true) × (y ≡ f x))))
unfolding first_row update_rows
found_before test p f k [] y h = cc
found_before test p f k (x ∷ xs) y h = elim (Bool-cases (test x)) [
  | inl e ↦ (x, (rw e refl, changed e (p x) refl h))
  | inr e ↦
      let (z, (found, how)) = found_before test p f k xs y (later e (p x) h) in
      (z, (rw e found, how))
]
  where
    one : {a b : Run} → some a ≡ some b → b ≡ a
    one q = cc

    changed :
        test x ≡ true
        → (b : Bool) → p x ≡ b
        → (if test (if b then f x else x)
            then some (if b then f x else x)
            else first_row test (update_rows p f xs))
          ≡ some y
        → ((p x ≡ false) × (y ≡ x)) ⊎ ((p x ≡ true) × (y ≡ f x))
    changed e true q g = inr (q, one (rw (k x, e) at g))
    changed e false q g = inl (q, one (rw e at g))

    later :
        test x ≡ false
        → (b : Bool)
        → (if test (if b then f x else x)
            then some (if b then f x else x)
            else first_row test (update_rows p f xs))
          ≡ some y
        → first_row test (update_rows p f xs) ≡ some y
    later e true g = rw (k x, e) at g
    later e false g = rw e at g

-- an update that keeps the numbers
update-Numbered :
    (id : String) (f : Run → Run)
    → ((r : Run) → (f r).id ≡ r.id)
    → ((r : Run) → (f r).next_activity_sequence ≡ r.next_activity_sequence)
    → (runs : List Run) (t : List RunActivity) → Numbered runs t
    → Numbered (update_rows (is_run id) f runs) t
update-Numbered id f k l runs t h = record {
  distinct = h.distinct;
  below = λ i y found.
      let (x, (before, how)) =
        found_before (is_run i) (is_run id) f (λ r. ap (λ s. str_eq s i) (k r)) runs y found in
      subst (λ n. All (IsBelow i n) t) (sym (number x y how)) (h.below i x before);
}
  where
    number :
        (x y : Run)
        → ((is_run id x ≡ false) × (y ≡ x)) ⊎ ((is_run id x ≡ true) × (y ≡ f x))
        → y.next_activity_sequence ≡ x.next_activity_sequence
    number x y (inl e) = ap (λ r. r.next_activity_sequence) e.1
    number x y (inr e) = ap (λ r. r.next_activity_sequence) e.1 ∙ l x

All-append :
    {A : Type 0} (P : A → Type 0) (t : List A) (a : A) → All P t → P a → All P (t ++ a ∷ [])
All-append P [] a h k = (k, tt)
All-append P (x ∷ xs) a h k = (h.0, All-append P xs a h.1 k)

All-map : {A : Type 0} (P Q : A → Type 0) → ((x : A) → P x → Q x) → (t : List A) → All P t → All Q t
All-map P Q f [] h = tt
All-map P Q f (x ∷ xs) h = (f x h.0, All-map P Q f xs h.1)

-- a new activity whose number is above those of its Run
Distinct-append :
    (t : List RunActivity) (a : RunActivity)
    → Distinct t
    → All (IsBelow a.run_id a.sequence) t
    → Distinct (t ++ a ∷ [])
Distinct-append [] a d b = (tt, tt)
Distinct-append (x ∷ xs) a d b = (
  All-append (λ y. str_eq x.run_id y.run_id ≡ true → y.sequence ≢ x.sequence) xs a d.0
      (λ e q. omega (arith, b.0 e, q)),
  Distinct-append xs a d.1 b.1,
)

-- the next number of a Run does not go down, and it goes up for the Run of the activity
counted :
    (id i : String) (run x y : Run) (runs : List Run)
    → first_row (is_run id) runs ≡ some run
    → first_row (is_run i) runs ≡ some x
    → ((is_run id x ≡ false) × (y ≡ x))
      ⊎ ((is_run id x ≡ true) × (y ≡ number_next run.next_activity_sequence x))
    → (x.next_activity_sequence ≤ y.next_activity_sequence)
      × (str_eq id i ≡ true → run.next_activity_sequence < y.next_activity_sequence)
counted id i run x y runs found before (inl how) = (
  omega (arith, ap (λ r. r.next_activity_sequence) how.1),
  λ e. absurd (ground (arith, how.0, first_row-test (is_run i) runs x before, (eq_iff id i).0 e)),
)
counted id i run x y runs found before (inr how) =
    let q = ap (λ r. r.next_activity_sequence) how.1 in
    (omega (arith, q, ap (λ r. r.next_activity_sequence) same), λ e. omega (arith, q))
  where
    one : some x ≡ some run → x ≡ run
    one q = cc

    same : x ≡ run
    same = one (
        sym before
        ∙ ap (λ j. first_row (is_run j) runs)
            (sym ((eq_iff x.id i).0 (first_row-test (is_run i) runs x before))
              ∙ (eq_iff x.id id).0 how.0)
        ∙ found)

-- the next number is counted up
count-Numbered :
    (a : Activity) (id : String) (at : ℕ) (run : Run) (runs : List Run) (t : List RunActivity)
    → first_row (is_run a.run_id) runs ≡ some run
    → Numbered runs t
    → Numbered
        (update_rows (is_run a.run_id) (number_next run.next_activity_sequence) runs)
        (t ++ activity_row a id run.next_activity_sequence at ∷ [])
count-Numbered a id at run runs t found h =
    let n = run.next_activity_sequence in
    record {
      distinct = Distinct-append t (activity_row a id n at) h.distinct (h.below a.run_id run found);
      below = λ i y after.
          let (x, (before, how)) =
            found_before (is_run i) (is_run a.run_id) (number_next n) (λ r. refl) runs y after in
          let (grows, above) = counted a.run_id i run x y runs found before how in
          All-append (IsBelow i y.next_activity_sequence) t (activity_row a id n at)
            (All-map (IsBelow i x.next_activity_sequence) (IsBelow i y.next_activity_sequence)
              (λ z k e. omega (arith, k e, grows)) t (h.below i x before))
            above;
    }

abbrev On : World → Type 0
On w = Numbered w.runs w.run_activity_events

abbrev Ready : Cause → World → Type 0
Ready c w = On w

On-Stable : Stable On
On-Stable = Stable-rows (λ t ps rs es. Numbered rs es)

module _ (id : String) (run : Run) where
  abbrev Found : World → Type 0
  Found w = On w × (first_row (is_run id) w.runs ≡ some run)

  Found-Stable : Stable Found
  Found-Stable = Stable-rows (λ t ps rs es. Numbered rs es × (first_row (is_run id) rs ≡ some run))

run-Triple :
    (id : String)
    → Triple Any On (require_run id) (λ r w. On w × (first_row (is_run id) w.runs ≡ some r))
unfolding require_run
run-Triple id = Triple-find (λ w. first_row (is_run id) w.runs) _

activity-Triple : (a : Activity) → Triple Any On (insert_activity a) (λ _. On)
unfolding insert_activity update_run
activity-Triple a = Triple-bind _ _ (Kept-check On On-Stable _ _) λ _.
    Triple-bind _ _ (run-Triple a.run_id) λ run.
      let F = Found a.run_id run in
      let s = Found-Stable a.run_id run in
      Triple-bind _ _ (Kept-fresh F s _) λ id. Triple-bind _ _ (Kept-now F s) λ at.
        Triple-bind _ _
          (Triple-modify _
            {Q = λ _ w.
              Numbered
                (update_rows (is_run a.run_id) (number_next run.next_activity_sequence) w.runs)
                w.run_activity_events}
            (λ w h. count-Numbered a id at run w.runs w.run_activity_events h.1 h.0))
          λ _.
            Triple-bind _ _ (Triple-modify _ {Q = λ _. On} (λ w h. h)) λ _. Kept-pure On On-Stable _

numbered : Invariant On Ready
numbered = record {
  kept = On-Stable;
  ready = λ c. On-Stable;
  threads = λ c w xs h. h;
  all_threads = λ w xs h. h;
  relax = λ c w h. h;
  supersede_rows = λ id reason at generation w h. h;
  attend = λ id token w h. h;
  begin = λ id at start w h. h;
  supplied = λ w xs h. h;
  change_run = λ c id f k l w h. update-Numbered id f k l w.runs w.run_activity_events h;
  rerun = λ id f k l w h. update-Numbered id f k l w.runs w.run_activity_events h;
  finished = λ id at outcome detail w h. h;
  attempt = λ a w e k h. h;
  settle_row = λ id a status detail at w k found executing fresh h. h;
  activity = activity-Triple;
}

-- Where no two activities of a Run have one number and the next number of each Run is above them all,
-- both hold after a command on Activations, provider attempts or activity that returns.
pub dispatch_activation-Numbered :
    (c : ActivationCommand) (p : Principal) (context : Option String) (correlation : String)
    (w w' : World) (r : CommandResult)
    → Numbered w.runs w.run_activity_events
    → dispatch_activation c p context correlation w ≡ returned r w'
    → Numbered w'.runs w'.run_activity_events
dispatch_activation-Numbered c p context correlation w w' r h e =
    Triple-returned (dispatch-Kept On Ready numbered c p context correlation) w h e
