-- ===== src/Kernel/Runs/Ended.antt =====
-- packages/kernel/src/runs.ts: what a Run that failed or was cancelled leaves behind.
use torsor.Prelude.{
  ℕ, ◌+◌, String, ◌≡◌, refl, Bool, true, false, ◌&&◌, Option, some, List, [], ◌∷◌, All, Bool-cases,
  inl, inr, is_none, str_eq, first_row, update_rows, if◌then◌else◌,
}
use torsor.Kernel.Errors.{KernelError}
use torsor.Kernel.Action.{gets, or_throw, for_each}
use torsor.Kernel.Action.Triples.{
  Triple, Triple-pure, Triple-gets, Triple-or_throw, Triple-check, Triple-modify, Triple-bind,
  Triple-weaken, Triple-throws, Triple-for_each,
}
use torsor.Kernel.Rows.{Principal, Run, RunInput, Activation, Json}
use torsor.Kernel.World.{World, now, fresh}
use torsor.Kernel.ReadOnly.{Any}
use torsor.Kernel.Outbox.Rows.{enqueue_outbox}
use torsor.Kernel.Activations.Validity.{is_for_run}
use torsor.Kernel.Runs.Events.{
  EventInput, require_thread, emit_event, emit_thread_event, is_revocable, revoke_activation,
  mark_activation_change, revoke_run_activations, causal_capacity,
}
use torsor.Kernel.Runs.Commands.{
  Ending, ending_state, ending_reason, is_run, is_pending_of, abandon, abandon_inputs, update_run,
  end_run, terminate_run,
}

-- The Run is stored in its last state; none of its inputs is Pending; none of its Activations that
-- have not finished is left without a revocation.
pub record Ended (id : String) (ending : Ending) (runs : List Run) (inputs : List RunInput)
    (activations : List Activation) : Type 0 where
  pub settled :
      (r : Run) × ((first_row (is_run id) runs ≡ some r) × (r.state ≡ ending_state ending))
  pub disposed : All (λ i. is_pending_of id i ≡ false) inputs
  pub revoked : All (λ a. is_revocable id a ≡ false) activations

abbrev pub EndedIn : String → Ending → World → Type 0
EndedIn id ending s = Ended id ending s.runs s.run_inputs s.activations

pub and_false : (b : Bool) → (b && false) ≡ false
and_false true = refl
and_false false = refl

pub update_rows-All :
    {A : Type 0} (test : A → Bool) (f : A → A)
    → ((x : A) → test (f x) ≡ false)
    → (xs : List A) → All (λ x. test x ≡ false) (update_rows test f xs)
unfolding update_rows
update_rows-All test f k [] = tt
update_rows-All test f k (x ∷ xs) = elim (Bool-cases (test x)) [
  | inl e ↦ rw e (k x, update_rows-All test f k xs)
  | inr e ↦ rw e (e, update_rows-All test f k xs)
]

pub first_row-update :
    {A : Type 0} (test : A → Bool) (f : A → A)
    → ((x : A) → test (f x) ≡ test x)
    → (xs : List A) (r : A) → first_row test xs ≡ some r
    → first_row test (update_rows test f xs) ≡ some (f r)
unfolding update_rows first_row
first_row-update test f k [] r h = cc
first_row-update test f k (x ∷ xs) r h = updated (test x) refl (first_row-update test f k xs r) h
  where
    updated :
        (b : Bool)
        → test x ≡ b
        → (first_row test xs ≡ some r → first_row test (update_rows test f xs) ≡ some (f r))
        → (if b then some x else first_row test xs) ≡ some r
        → (if test (if test x then f x else x)
            then some (if test x then f x else x)
            else first_row test (update_rows test f xs))
          ≡ some (f r)
    updated true e later g = rw (e, k x, e) (cc)
    updated false e later g = rw (e, e) (later g)

pub first_row-test :
    {A : Type 0} (test : A → Bool) (xs : List A) (r : A)
    → first_row test xs ≡ some r
    → test r ≡ true
unfolding first_row
first_row-test test [] r h = cc
first_row-test test (x ∷ xs) r h = found (test x) refl (first_row-test test xs r) h
  where
    found :
        (b : Bool)
        → test x ≡ b
        → (first_row test xs ≡ some r → test r ≡ true)
        → (if b then some x else first_row test xs) ≡ some r
        → test r ≡ true
    found true e later g = cc
    found false e later g = later g

-- The events and messages that follow leave the rows of the Run alone.
module _ (Q : List Run → List RunInput → List Activation → Type 0) where
  abbrev pub On : World → Type 0
  On s = Q s.runs s.run_inputs s.activations

  pub Triple-now-On : Triple Any On now (λ _. On)
  unfolding now
  Triple-now-On = record { at = λ s h. h }

  pub Triple-fresh-On : (prefix : String) → Triple Any On (fresh prefix) (λ _. On)
  unfolding fresh
  Triple-fresh-On prefix = record { at = λ s h. h }

  pub Triple-gets-On : {A : Type 0} (f : World → A) → Triple Any On (gets f) (λ _. On)
  Triple-gets-On f = Triple-weaken (λ s h. h) (Triple-gets f) (λ a s h. h.0)

  pub Triple-row-On :
      {A : Type 0} (x : Option A) (e : KernelError) → Triple Any On (or_throw x e) (λ _. On)
  Triple-row-On x e = Triple-weaken (λ s h. h) (Triple-or_throw x e (λ s h. tt)) (λ a s h. h.0)

  pub Triple-event-On : (e : EventInput) → Triple Any On (emit_thread_event e) (λ _. On)
  unfolding emit_thread_event emit_event require_thread
  Triple-event-On e =
      Triple-bind _ _ (Triple-bind _ _ (Triple-gets-On _) λ found. Triple-row-On found _) λ thread.
        Triple-bind _ _ (Triple-modify _ {Q = λ _. On} (λ s h. h)) λ _.
          Triple-bind _ _
            (Triple-bind _ _ (Triple-fresh-On _) λ id. Triple-bind _ _ Triple-now-On λ at.
              Triple-bind _ _ (Triple-modify _ {Q = λ _. On} (λ s h. h)) λ _. Triple-gets-On _)
            λ _. Triple-weaken (λ s h. h) (Triple-pure _) (λ a s h. h.0)

  pub Triple-enqueue-On :
      (topic type id : String) (payload : Json)
      → Triple Any On (enqueue_outbox topic type id payload) (λ _. On)
  unfolding enqueue_outbox
  Triple-enqueue-On topic type id payload =
      Triple-bind _ _ (Triple-fresh-On _)
        λ i. Triple-bind _ _ Triple-now-On λ at. Triple-modify _ {Q = λ _. On} (λ s h. h)

  pub Triple-capacity-On : (root : String) → Triple Any On (causal_capacity root) (λ _. On)
  unfolding causal_capacity
  Triple-capacity-On root = Triple-bind _ _ (Triple-gets-On _) λ found.
      Triple-bind _ _ (Triple-row-On found _) λ limits.
        Triple-bind _ _ (Triple-gets-On _)
          λ count. Triple-weaken (λ s h. h) (Triple-pure _) (λ a s h. h.0)

  pub Triple-marks-On :
      (xs : List Activation) → Triple Any On (for_each mark_activation_change xs) (λ _. On)
  unfolding mark_activation_change
  Triple-marks-On xs =
      Triple-throws (λ s h. tt)
        (Triple-for_each _ xs (λ a. Triple-modify _ {Q = λ _. On} (λ s h. h)))

module _ (run : Run) where
  abbrev pub Found : List Run → List RunInput → List Activation → Type 0
  Found runs inputs activations = first_row (is_run run.id) runs ≡ some run

  abbrev Abandoned : List Run → List RunInput → List Activation → Type 0
  Abandoned runs inputs activations =
      (first_row (is_run run.id) runs ≡ some run) × All (λ i. is_pending_of run.id i ≡ false) inputs

module _ (run : Run) (ending : Ending) where
  abbrev Settled : List Run → List RunInput → List Activation → Type 0
  Settled runs inputs activations =
      ((r : Run) × ((first_row (is_run run.id) runs ≡ some r) × (r.state ≡ ending_state ending)))
      × All (λ i. is_pending_of run.id i ≡ false) inputs

  abandon-Triple :
      (reason : String)
      → Triple Any (On (Found run)) (abandon_inputs run.id reason) (λ _. On (Abandoned run))
  unfolding abandon_inputs
  abandon-Triple reason = Triple-modify _ λ s h. (
    h,
    update_rows-All (is_pending_of run.id) (abandon reason)
        (λ i. and_false (str_eq i.run_id run.id)) s.run_inputs,
  )

  settle-Triple :
      (revision at : ℕ) (reason : String)
      → Triple Any
          (On (Abandoned run))
          (update_run run.id (end_run ending revision at reason))
          (λ _. On Settled)
  unfolding update_run
  settle-Triple revision at reason = Triple-modify _ λ s h. (
    (
      end_run ending revision at reason run,
      (
        first_row-update (is_run run.id) (end_run ending revision at reason) (λ x. refl) s.runs run
            h.0,
        refl,
      ),
    ),
    h.1,
  )

  revoke-Triple :
      (reason : String) (at : ℕ)
      → Triple Any
          (On Settled)
          (revoke_run_activations run.id reason at)
          (λ _. On (Ended run.id ending))
  unfolding revoke_run_activations
  revoke-Triple reason at = Triple-bind _ _ (Triple-gets-On Settled _) λ changed.
      Triple-bind _ _
        (Triple-modify _ {Q = λ _. On (Ended run.id ending)} λ s h. record {
          settled = h.0;
          disposed = h.1;
          revoked =
              update_rows-All (is_revocable run.id) (revoke_activation at reason)
                (λ a. and_false (is_for_run a run.id && is_none a.finished_at)) s.activations;
        })
        λ _. Triple-marks-On (Ended run.id ending) changed

  pub terminate_run-Triple :
      (reason : String) (p : Principal) (activation : Option String) (correlation : String)
      → Triple Any
          (On (Found run))
          (terminate_run run ending reason p activation correlation)
          (λ _. On (Ended run.id ending))
  unfolding terminate_run
  terminate_run-Triple reason p activation correlation =
      Triple-bind _ _ (Triple-weaken (λ s h. h) (Triple-check _ _ (λ s h. tt)) (λ a s h. h.0)) λ _.
        Triple-bind _ _ (abandon-Triple (ending_reason ending)) λ _.
          Triple-bind _ _ (Triple-now-On (Abandoned run)) λ at.
            Triple-bind _ _ (settle-Triple (run.revision + 1) at reason) λ _.
              Triple-bind _ _ (Triple-now-On Settled) λ revoked.
                Triple-bind _ _ (revoke-Triple (ending_reason ending) revoked) λ _.
                  Triple-bind _ _ (Triple-capacity-On (Ended run.id ending) run.causal_root_id)
                    λ capacity. Triple-bind _ _ (Triple-event-On (Ended run.id ending) _) λ cursor.
                      Triple-bind _ _ (Triple-enqueue-On (Ended run.id ending) _ _ _ _)
                        λ _. Triple-weaken (λ s h. h) (Triple-pure _) (λ a s h. h.0)
