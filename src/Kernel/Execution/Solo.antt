-- ===== src/Kernel/Execution/Solo.antt =====
-- packages/kernel/src/execution.ts: a Run has one Activation at most that has neither finished nor
-- been revoked.
use torsor.Prelude.{
  ℕ, ◌≤◌, String, ◌≡◌, refl, subst, Bool, true, false, ◌&&◌, Option, List, [], ◌∷◌, ◌++◌, inl, inr,
  arith, All, Bool-cases, length, is_none, str_eq, eq_iff, where_rows, update_rows,
}
use torsor.Kernel.Action.{returned}
use torsor.Kernel.Action.Triples.{Triple-returned}
use torsor.Kernel.Rows.{
  Thread, Principal, Activation, ActivationOutcome, Run, Cause, for_run, for_attention,
}
use torsor.Kernel.World.{World}
use torsor.Kernel.Results.{CommandResult}
use torsor.Kernel.Activations.Validity.{is_for_run}
use torsor.Kernel.Runs.Events.{is_revocable, revoke_activation}
use torsor.Kernel.Runs.Ended.{and_false, update_rows-All}
use torsor.Kernel.Attentions.Owned.{where_rows-append, append-nil}
use torsor.Kernel.Attentions.Decisions.{is_activation}
use torsor.Kernel.Execution.Activations.{new_activation, finish}
use torsor.Kernel.Execution.Dispatch.{ActivationCommand, dispatch_activation}
use torsor.Kernel.Frames.{Stable}
use torsor.Kernel.Execution.Invariants.{Invariant, Stable-rows, Kept-activity}
use torsor.Kernel.Execution.Kept.{dispatch-Kept}

-- No Run has two Activations that have neither finished nor been revoked.
abbrev pub Solo : List Activation → Type 0
Solo t = (id : String) → length (where_rows (is_revocable id) t) ≤ 1

abbrev On : World → Type 0
On w = Solo w.activations

-- for a Run, it has none
abbrev Ready : Cause → World → Type 0
Ready (for_run id generation) w =
    Solo w.activations × (length (where_rows (is_revocable id) w.activations) ≡ 0)
Ready (for_attention id token) w = Solo w.activations

-- a change after which a test holds of no more rows
length-where_rows-loses :
    {A : Type 0} (test p : A → Bool) (f : A → A)
    → ((x : A) → test (f x) ≡ false)
    → (xs : List A) → length (where_rows test (update_rows p f xs)) ≤ length (where_rows test xs)
unfolding where_rows update_rows
length-where_rows-loses test p f k [] = omega arith
length-where_rows-loses test p f k (x ∷ xs) =
    ground (arith, k x, length-where_rows-loses test p f k xs)

none_left :
    {A : Type 0} (test : A → Bool) (xs : List A)
    → All (λ x. test x ≡ false) xs
    → length (where_rows test xs) ≡ 0
unfolding where_rows
none_left test [] h = refl
none_left test (x ∷ xs) h = rw h.0 (none_left test xs h.1)

supersede-Solo :
    (id reason : String) (at : ℕ) (t : List Activation)
    → Solo t
    → Solo (update_rows (is_revocable id) (revoke_activation at reason) t)
supersede-Solo id reason at t h other = omega (
  arith,
  length-where_rows-loses (is_revocable other) (is_revocable id) (revoke_activation at reason)
      (λ a. and_false (is_for_run a other && is_none a.finished_at)) t,
  h other,
)

superseded :
    (id reason : String) (at : ℕ) (t : List Activation)
    → length (
        where_rows
          (is_revocable id)
          (update_rows (is_revocable id) (revoke_activation at reason) t))
      ≡ 0
superseded id reason at t =
    none_left (is_revocable id) (update_rows (is_revocable id) (revoke_activation at reason) t) (
      update_rows-All (is_revocable id) (revoke_activation at reason)
        (λ a. and_false (is_for_run a id && is_none a.finished_at)) t)

finish-Solo :
    (id : String) (at : ℕ) (outcome : ActivationOutcome) (detail : Option String)
    (t : List Activation)
    → Solo t
    → Solo (update_rows (is_activation id) (finish at outcome detail) t)
finish-Solo id at outcome detail t h other = omega (
  arith,
  length-where_rows-loses (is_revocable other) (is_activation id) (finish at outcome detail)
      (λ a. gone (is_for_run a other) (is_none a.revoked_at)) t,
  h other,
)
  where
    gone : (a b : Bool) → (a && false && b) ≡ false
    gone true b = refl
    gone false b = refl

append-Solo :
    (a : Activation) (t : List Activation)
    → Solo t
    → ((id : String) → is_revocable id a ≡ true → length (where_rows (is_revocable id) t) ≡ 0)
    → Solo (t ++ a ∷ [])
append-Solo a t h alone id =
    rw (where_rows-append (is_revocable id) t a) (elim (Bool-cases (is_revocable id a)) [
      | inl e ↦ rw e (first (where_rows (is_revocable id) t) (alone id e))
      | inr e ↦ rw e (rw (append-nil (where_rows (is_revocable id) t)) (h id))
    ])
  where
    first : (xs : List Activation) → length xs ≡ 0 → length (xs ++ a ∷ []) ≤ 1
    first [] h = omega arith
    first (x ∷ xs) h = absurd (omega (arith, h))

begin-Solo :
    (c : Cause) (a : Activation) (w : World)
    → a.cause ≡ c
    → Ready c w
    → Solo (w.activations ++ a ∷ [])
begin-Solo (for_run run_id generation) a w e h = append-Solo a w.activations h.0 (λ id live.
    subst (λ i. length (where_rows (is_revocable i) w.activations) ≡ 0)
      ((eq_iff run_id id).0 (its_run id live)) h.1)
  where
    its_run : (id : String) → is_revocable id a ≡ true → str_eq run_id id ≡ true
    its_run id live = ground (arith, e, live)
begin-Solo (for_attention attention_id token) a w e h =
    append-Solo a w.activations h (λ id live. absurd (ground (arith, e, live)))

ready-Stable : (c : Cause) → Stable (Ready c)
ready-Stable (for_run id generation) =
    Stable-rows (λ t ps rs es. Solo t × (length (where_rows (is_revocable id) t) ≡ 0))
ready-Stable (for_attention id token) = Stable-rows (λ t ps rs es. Solo t)

relax-Solo : (c : Cause) (w : World) → Ready c w → On w
relax-Solo (for_run id generation) w h = h.0
relax-Solo (for_attention id token) w h = h

runs-Ready :
    (c : Cause) (w : World) (xs : List Run)
    → Ready c w
    → Ready c (record w { db = record w.db { runs = xs } })
runs-Ready (for_run id generation) w xs h = h
runs-Ready (for_attention id token) w xs h = h

threads-Ready :
    (c : Cause) (w : World) (xs : List Thread)
    → Ready c w
    → Ready c (record w { db = record w.db { threads = xs } })
threads-Ready (for_run id generation) w xs h = h
threads-Ready (for_attention id token) w xs h = h

solo : Invariant On Ready
solo = record {
  kept = Stable-rows (λ t ps rs es. Solo t);
  ready = ready-Stable;
  threads = threads-Ready;
  all_threads = λ w xs h. h;
  relax = relax-Solo;
  supersede_rows = λ id reason at generation w h.
      (supersede-Solo id reason at w.activations h, superseded id reason at w.activations);
  attend = λ id token w h. h;
  begin = λ id at start w h. begin-Solo start.cause (new_activation id at start) w refl h;
  supplied = λ w xs h. h;
  change_run = λ c id f k l w h. runs-Ready c w _ h;
  rerun = λ id f k l w h. h;
  finished = λ id at outcome detail w h. finish-Solo id at outcome detail w.activations h;
  attempt = λ a w e k h. h;
  settle_row = λ id a status detail at w s k l m h. h;
  activity = Kept-activity (λ t ps. Solo t);
}

-- Where no Run has two Activations that have neither finished nor been revoked, none has two after a
-- command on Activations, provider attempts or activity that returns: a start revokes the others
-- before it stores a new one.
pub dispatch_activation-Solo :
    (c : ActivationCommand) (p : Principal) (context : Option String) (correlation : String)
    (w w' : World) (r : CommandResult)
    → Solo w.activations
    → dispatch_activation c p context correlation w ≡ returned r w'
    → Solo w'.activations
dispatch_activation-Solo c p context correlation w w' r h e =
    Triple-returned (dispatch-Kept On Ready solo c p context correlation) w h e
