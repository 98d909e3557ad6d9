-- ===== src/Kernel/Execution/Progress.antt =====
-- packages/kernel/src/execution.ts and schema.ts: how the rows of provider_attempts follow one another.
use torsor.Prelude.{
  ℕ, String, ◌≡◌, refl, ◌∙◌, inl, inr, true, false, not, ◌&&◌, Option, none, List, [], ◌∷◌, ◌++◌,
  All, arith,
}
use torsor.Kernel.Rows.{
  ProviderAttempt, AttemptStatus, started, acknowledged, attempt_completed, attempt_failed, unknown,
}
use torsor.Kernel.Physical.Authority.{is_executing}
use torsor.Kernel.Execution.Attempts.{is_attempt, is_acknowledged, settle_attempt}
use torsor.Kernel.Execution.Invariants.{Settling}

-- A status follows another: Started or Acknowledged is left for any but Started, and no status is
-- taken twice.
pub data Onward : AttemptStatus → AttemptStatus → Type 0 where
  stays : {s : AttemptStatus} → Onward s s
  from_started : {s : AttemptStatus} → Settling s → Onward started s
  from_acknowledged :
      {s : AttemptStatus} → Settling s → is_acknowledged s ≡ false → Onward acknowledged s

abbrev pub identity : ProviderAttempt → ProviderAttempt
identity a = record a { status = started; detail = none; finished_at = none }

-- A later version of a row: the same attempt, whose status has gone on; one that had settled is the
-- same in every column.
pub record Follows (x y : ProviderAttempt) : Type 0 where
  pub same : identity y ≡ identity x
  pub moved : Onward x.status y.status
  pub settled : is_executing x.status ≡ false → y ≡ x

abbrev pub Table : Type 0
Table = List ProviderAttempt

-- Each row of the earlier table is followed by the row in its place; new rows stand behind.
abbrev pub AttemptsFollow : Table → Table → Type 0
AttemptsFollow [] ys = Unit
AttemptsFollow (x ∷ xs) [] = ⊥
AttemptsFollow (x ∷ xs) (y ∷ ys) = Follows x y × AttemptsFollow xs ys

-- No two rows share an id.
abbrev pub DistinctAttempts : Table → Type 0
DistinctAttempts [] = Unit
DistinctAttempts (x ∷ xs) = All (λ y. is_attempt x.id y ≡ false) xs × DistinctAttempts xs

Onward-trans : {s t u : AttemptStatus} → Onward s t → Onward t u → Onward s u
Onward-trans stays q = q
Onward-trans p stays = p
Onward-trans (from_started k) (from_started l) = from_started l
Onward-trans (from_started k) (from_acknowledged l m) = from_started l
Onward-trans (from_acknowledged k m) (from_started l) = absurd (never k)
  where
    never : Settling started → ⊥
    never (inl h) = cc
    never (inr h) = cc
Onward-trans (from_acknowledged k m) (from_acknowledged l n) = from_acknowledged l n

still_settled : (s t : AttemptStatus) → Onward s t → is_executing s ≡ false → is_executing t ≡ false
still_settled _ _ stays h = h
still_settled started t (from_started k) h = cc
still_settled acknowledged t (from_acknowledged k l) h = cc

pub Follows-refl : (x : ProviderAttempt) → Follows x x
Follows-refl x = record { same = refl; moved = stays; settled = λ h. refl }

pub Follows-trans : (x y z : ProviderAttempt) → Follows x y → Follows y z → Follows x z
Follows-trans x y z h k = record {
  same = k.same ∙ h.same;
  moved = Onward-trans h.moved k.moved;
  settled = λ e. k.settled (still_settled x.status y.status h.moved e) ∙ h.settled e;
}

pub AttemptsFollow-refl : (t : Table) → AttemptsFollow t t
AttemptsFollow-refl [] = tt
AttemptsFollow-refl (x ∷ xs) = (Follows-refl x, AttemptsFollow-refl xs)

pub AttemptsFollow-trans :
    (t u v : Table) → AttemptsFollow t u → AttemptsFollow u v → AttemptsFollow t v
AttemptsFollow-trans [] u v h k = tt
AttemptsFollow-trans (x ∷ xs) [] v h k = elim h [ ]
AttemptsFollow-trans (x ∷ xs) (y ∷ ys) [] h k = elim k [ ]
AttemptsFollow-trans (x ∷ xs) (y ∷ ys) (z ∷ zs) h k =
    (Follows-trans x y z h.0 k.0, AttemptsFollow-trans xs ys zs h.1 k.1)

pub AttemptsFollow-append : (t : Table) (a : ProviderAttempt) → AttemptsFollow t (t ++ a ∷ [])
AttemptsFollow-append [] a = tt
AttemptsFollow-append (x ∷ xs) a = (Follows-refl x, AttemptsFollow-append xs a)

-- the row that is settled
pub settle-Follows :
    (a : ProviderAttempt) (status : AttemptStatus) (detail : Option String) (at : Option ℕ)
    → Settling status
    → is_executing a.status ≡ true
    → not (is_acknowledged a.status && is_acknowledged status) ≡ true
    → Follows a (settle_attempt status detail at a)
settle-Follows a status detail at k executing fresh = record {
  same = refl;
  moved = onward a.status executing fresh;
  settled = λ h. cc;
}
  where
    onward :
        (s : AttemptStatus)
        → is_executing s ≡ true
        → not (is_acknowledged s && is_acknowledged status) ≡ true
        → Onward s status
    onward started h l = from_started k
    onward acknowledged h l = from_acknowledged k (ground (arith, l))
    onward attempt_completed h l = cc
    onward attempt_failed h l = cc
    onward unknown h l = cc
