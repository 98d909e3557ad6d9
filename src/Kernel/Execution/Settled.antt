-- ===== src/Kernel/Execution/Settled.antt =====
-- packages/kernel/src/execution.ts: provider attempts go on and, once settled, stay as they are.
use torsor.Prelude.{
  ℕ, String, ◌≡◌, refl, sym, subst, Bool, true, false, not, ◌&&◌, Option, some, [], ◌∷◌, ◌++◌, All,
  inl, inr, arith, Bool-cases, eq_iff, first_row, any_row, update_rows, if◌then◌else◌,
}
use torsor.Kernel.Action.{returned}
use torsor.Kernel.Action.Triples.{Triple-returned}
use torsor.Kernel.Rows.{Principal, Cause, ProviderAttempt, AttemptStatus}
use torsor.Kernel.World.{World}
use torsor.Kernel.Results.{CommandResult}
use torsor.Kernel.Physical.Authority.{is_executing}
use torsor.Kernel.Execution.Attempts.{is_attempt, is_acknowledged, settle_attempt}
use torsor.Kernel.Execution.Progress.{
  Table, Follows, AttemptsFollow, DistinctAttempts, Follows-refl, settle-Follows,
  AttemptsFollow-refl, AttemptsFollow-trans, AttemptsFollow-append,
}
use torsor.Kernel.Execution.Dispatch.{ActivationCommand, dispatch_activation}
use torsor.Kernel.Execution.Invariants.{Invariant, Settling, Stable-rows, Kept-activity}
use torsor.Kernel.Execution.Kept.{dispatch-Kept}

untouched :
    (test : ProviderAttempt → Bool) (f : ProviderAttempt → ProviderAttempt) (t : Table)
    → All (λ x. test x ≡ false) t
    → update_rows test f t ≡ t
unfolding update_rows
untouched test f [] h = refl
untouched test f (x ∷ xs) h = rw (h.0, untouched test f xs h.1) refl

-- an update that keeps the ids keeps them distinct
module _ (test : ProviderAttempt → Bool) (f : ProviderAttempt → ProviderAttempt)
    (same : (x : ProviderAttempt) → (f x).id ≡ x.id) where
  others :
      (id : String) (t : Table)
      → All (λ y. is_attempt id y ≡ false) t
      → All (λ y. is_attempt id y ≡ false) (update_rows test f t)
  unfolding update_rows
  others id [] h = tt
  others id (x ∷ xs) h = (ground (arith, same x, h.0), others id xs h.1)

  DistinctAttempts-update :
      (t : Table) → DistinctAttempts t → DistinctAttempts (update_rows test f t)
  unfolding update_rows
  DistinctAttempts-update [] h = tt
  DistinctAttempts-update (x ∷ xs) h = (
    subst (λ i. All (λ y. is_attempt i y ≡ false) (update_rows test f xs)) (head (test x))
        (others x.id xs h.0),
    DistinctAttempts-update xs h.1,
  )
    where
      head : (b : Bool) → x.id ≡ (if b then f x else x).id
      head true = sym (same x)
      head false = refl

All-append :
    (P : ProviderAttempt → Type 0) (t : Table) (a : ProviderAttempt)
    → All P t
    → P a
    → All P (t ++ a ∷ [])
All-append P [] a h k = (k, tt)
All-append P (x ∷ xs) a h k = (h.0, All-append P xs a h.1 k)

DistinctAttempts-append :
    (t : Table) (a : ProviderAttempt)
    → any_row (is_attempt a.id) t ≡ false
    → DistinctAttempts t
    → DistinctAttempts (t ++ a ∷ [])
unfolding any_row
DistinctAttempts-append [] a h k = (tt, tt)
DistinctAttempts-append (x ∷ xs) a h k = (
  All-append (λ y. is_attempt x.id y ≡ false) xs a k.0
      (ground (arith, h, eq_iff x.id a.id, eq_iff a.id x.id)),
  DistinctAttempts-append xs a (ground (arith, h)) k.1,
)

-- the one row that the update finds
update-AttemptsFollow :
    (id : String) (a : ProviderAttempt) (f : ProviderAttempt → ProviderAttempt)
    → Follows a (f a)
    → (t : Table) → DistinctAttempts t
    → first_row (is_attempt id) t ≡ some a
    → AttemptsFollow t (update_rows (is_attempt id) f t)
unfolding update_rows first_row
update-AttemptsFollow id a f moved [] d h = cc
update-AttemptsFollow id a f moved (x ∷ xs) d h = elim (Bool-cases (is_attempt id x)) [
  | inl e ↦ rw e (
    subst (λ y. Follows y (f y)) (here e) moved,
    subst (λ ys. AttemptsFollow xs ys)
        (sym (
          untouched (is_attempt id) f xs
            (subst (λ i. All (λ y. is_attempt i y ≡ false) xs) ((eq_iff x.id id).0 e) d.0)))
        (AttemptsFollow-refl xs),
  )
  | inr e ↦ rw e (Follows-refl x, update-AttemptsFollow id a f moved xs d.1 (there e))
]
  where
    here : is_attempt id x ≡ true → a ≡ x
    here e = found (is_attempt id x) e h
      where
        found :
            (b : Bool)
            → b ≡ true
            → (if b then some x else first_row (is_attempt id) xs) ≡ some a
            → a ≡ x
        found true e k = cc
        found false e k = cc

    there : is_attempt id x ≡ false → first_row (is_attempt id) xs ≡ some a
    there e = rw e at h

module _ (t : Table) where
  abbrev Later : Table → Type 0
  Later u = DistinctAttempts u × AttemptsFollow t u

  abbrev On : World → Type 0
  On w = Later w.provider_attempts

  abbrev Ready : Cause → World → Type 0
  Ready c w = Later w.provider_attempts

  settle-Later :
      (id : String) (a : ProviderAttempt) (status : AttemptStatus) (detail : Option String)
      (at : Option ℕ) (u : Table)
      → Settling status
      → first_row (is_attempt id) u ≡ some a
      → is_executing a.status ≡ true
      → not (is_acknowledged a.status && is_acknowledged status) ≡ true
      → Later u
      → Later (update_rows (is_attempt id) (settle_attempt status detail at) u)
  settle-Later id a status detail at u k found executing fresh h =
      let f = settle_attempt status detail at in
      (
        DistinctAttempts-update (is_attempt id) f (λ x. refl) u h.0,
        AttemptsFollow-trans t u (update_rows (is_attempt id) f u) h.1 (
            update-AttemptsFollow id a f (settle-Follows a status detail at k executing fresh) u h.0
              found),
      )

  later : Invariant On Ready
  later = record {
    kept = Stable-rows (λ as' u rs es. Later u);
    ready = λ c. Stable-rows (λ as' u rs es. Later u);
    threads = λ c w xs h. h;
    all_threads = λ w xs h. h;
    relax = λ c w h. h;
    supersede_rows = λ id reason at generation w h. h;
    attend = λ id token w h. h;
    begin = λ id at start w h. h;
    supplied = λ w xs h. h;
    change_run = λ c id f k l w h. h;
    rerun = λ id f k l w h. h;
    finished = λ id at outcome detail w h. h;
    attempt = λ a w e k h. (
      DistinctAttempts-append w.provider_attempts a k h.0,
      AttemptsFollow-trans t w.provider_attempts (w.provider_attempts ++ a ∷ []) h.1
          (AttemptsFollow-append w.provider_attempts a),
    );
    settle_row = λ id a status detail at w k found executing fresh h.
        settle-Later id a status detail at w.provider_attempts k found executing fresh h;
    activity = Kept-activity (λ as' u. Later u);
  }

-- A command on Activations, provider attempts or activity that returns keeps the provider attempts
-- distinct in their ids, and each in its place: an attempt goes on from Started to any other status,
-- from Acknowledged to a final one, and never changes once it is final; new attempts stand behind.
pub dispatch_activation-AttemptsFollow :
    (c : ActivationCommand) (p : Principal) (context : Option String) (correlation : String)
    (w w' : World) (r : CommandResult)
    → DistinctAttempts w.provider_attempts
    → dispatch_activation c p context correlation w ≡ returned r w'
    → DistinctAttempts w'.provider_attempts
      × AttemptsFollow w.provider_attempts w'.provider_attempts
dispatch_activation-AttemptsFollow c p context correlation w w' r h e =
    let t = w.provider_attempts in
    Triple-returned (dispatch-Kept (On t) (Ready t) (later t) c p context correlation) w
      (h, AttemptsFollow-refl t) e
