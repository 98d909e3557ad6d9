-- ===== src/Kernel/Activations/Columns.antt =====
-- packages/kernel/src/invariants.ts: what the tests of columns tell.
use torsor.Prelude.{
  ℕ, String, ◌≡◌, refl, ap, Bool, true, false, not, Option, none, some, arith, eq_iff, same_text,
  is_none, if◌then◌else◌,
}
use torsor.Kernel.Rows.{
  AttentionStatus, RunState, is_open, is_active_run, open_attention, active_run,
}
use torsor.Kernel.Activations.Validity.{Validity, Reason, live, dead, same_number}

pub same_text-equal : (x y : Option String) → same_text x y ≡ true → x ≡ y
same_text-equal none none h = refl
same_text-equal none (some t) h = cc
same_text-equal (some s) none h = cc
same_text-equal (some s) (some t) h = ap some ((eq_iff s t).0 h)

pub same_text-same : (x y : Option String) → x ≡ y → same_text x y ≡ true
same_text-same none none h = refl
same_text-same none (some t) h = cc
same_text-same (some s) none h = cc
same_text-same (some s) (some t) h = ground (arith, eq_iff s t)

pub same_number-equal : (x y : Option ℕ) → same_number x y ≡ true → x ≡ y
same_number-equal none none h = refl
same_number-equal none (some t) h = cc
same_number-equal (some s) none h = cc
same_number-equal (some s) (some t) h = ap some (ground arith)

pub same_number-same : (x y : Option ℕ) → x ≡ y → same_number x y ≡ true
same_number-same none none h = refl
same_number-same none (some t) h = cc
same_number-same (some s) none h = cc
same_number-same (some s) (some t) h = ground arith

pub is_active_run-active : (s : RunState) → is_active_run s ≡ true → s ≡ active_run
is_active_run-active active_run h = refl
is_active_run-active RunState.waiting h = cc
is_active_run-active RunState.completed h = cc
is_active_run-active RunState.failed h = cc
is_active_run-active RunState.cancelled h = cc

pub is_open-open : (s : AttentionStatus) → is_open s ≡ true → s ≡ open_attention
is_open-open open_attention h = refl
is_open-open AttentionStatus.resolved h = cc
is_open-open AttentionStatus.ignored h = cc

-- a chain of tests with a refusal for each
pub refused :
    (b : Bool) (r : Reason) (v : Validity)
    → (if b then dead r else v) ≡ live
    → (b ≡ false) × (v ≡ live)
refused true r v h = cc
refused false r v h = (refl, h)

pub passed :
    (b : Bool) (r : Reason) (v : Validity) → b ≡ false → v ≡ live → (if b then dead r else v) ≡ live
passed true r v e h = cc
passed false r v e h = h

pub not-false : (b : Bool) → not b ≡ false → b ≡ true
not-false true h = refl
not-false false h = cc

pub none_of : {A : Type 0} (x : Option A) → not (is_none x) ≡ false → x ≡ none
none_of none h = refl
none_of (some a) h = cc
