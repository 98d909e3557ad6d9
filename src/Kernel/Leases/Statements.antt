-- ===== src/Kernel/Leases/Statements.antt =====
-- packages/kernel/src/worktree-writer-leases.ts: the statements that the commands are made of.
use torsor.Prelude.{ℕ, String, ◌≡◌, refl, sym, ap, subst, ◌∙◌, Bool, Option, some, eq_refl, eq_iff}
use torsor.Kernel.Errors.{KernelError, kernel_error, not_found}
use torsor.Kernel.Action.{pure, check, or_throw, gets, modify, ◌>>=◌}
use torsor.Kernel.Action.Triples.{
  Triple, Triple-pure, Triple-or_throw, Triple-gets, Triple-bind, Triple-weaken, Triple-check,
}
use torsor.Kernel.Rows.{Lease, LeaseEventType}
use torsor.Kernel.World.{World, now, fresh}
use torsor.Kernel.Values.{bounded_duration}
use torsor.Kernel.Physical.Idle.{is_idle, assert_physical_worktree_idle}
use torsor.Kernel.Leases.Rows.{
  authority_result, get_lease, require_lease, put_lease, update_lease, append_event, map_row,
}
use torsor.Kernel.Leases.Sound.{
  IsSound, IsSound?, Advances, Table, LeasesAdvance, LeasesAdvance-change,
}

-- What is kept through a command that starts from the table `t0`: the table has only moved on.
module _ (t0 : Table) where
  abbrev pub Kept : World → Type 0
  Kept w = LeasesAdvance t0 w.leases

  -- and the row of a Worktree is known
  abbrev pub Holds : String → Option Lease → World → Type 0
  Holds id x w = LeasesAdvance t0 w.leases × (w.leases id ≡ x)

  pub Triple-now : (id : String) (x : Option Lease) → Triple Kept (Holds id x) now (λ _. Holds id x)
  unfolding now
  Triple-now id x = record { at = λ s h. h }

  pub Triple-fresh :
      (id : String) (x : Option Lease) (prefix : String)
      → Triple Kept (Holds id x) (fresh prefix) (λ _. Holds id x)
  unfolding fresh
  Triple-fresh id x prefix = record { at = λ s h. h }

  pub Triple-check-Kept :
      (id : String) (x : Option Lease) (b : Bool) (e : KernelError)
      → Triple Kept (Holds id x) (check b e) (λ _. Holds id x)
  Triple-check-Kept id x b e =
      Triple-weaken (λ s h. h) (Triple-check b e (λ s h. h.0)) (λ a s h. h.0)

  pub Triple-get_lease : (id : String) → Triple Kept Kept (get_lease id) (λ x. Holds id x)
  unfolding get_lease gets
  Triple-get_lease id = record { at = λ s h. (h, refl) }

  pub Triple-require_lease :
      (id : String) (x : Option Lease)
      → Triple Kept (Holds id x) (require_lease id) (λ l s. Holds id (some l) s × (x ≡ some l))
  unfolding require_lease get_lease
  Triple-require_lease id x =
      Triple-bind (get_lease id) (λ found. or_throw found (kernel_error not_found))
        (Triple-gets (λ w. w.leases id))
        λ found.
          Triple-weaken (λ s h. h) (Triple-or_throw found (kernel_error not_found) (λ s h. h.0.0))
            λ l s h. ((h.0.0.0, h.0.1 ∙ h.1), sym h.0.0.1 ∙ h.0.1 ∙ h.1)

  pub Triple-update_lease :
      (id : String) (l : Lease) (f : Lease → Lease)
      → (IsSound id l → IsSound id (f l))
      → Advances (some l) (some (f l))
      → Triple Kept (Holds id (some l)) (update_lease id f) (λ _. Holds id (some (f l)))
  unfolding update_lease modify
  Triple-update_lease id l f sound moved = record {
    at = λ s h. (
      LeasesAdvance-change t0 s.leases _ id (some (f l)) h.0
          (sound (subst (IsSound? id) h.1 (h.0.sound id)))
          (subst (λ y. Advances y (some (f l))) (sym h.1) moved)
          (λ j e. rw e (ap (map_row f) (ap s.leases ((eq_iff j id).0 e) ∙ h.1))) (λ j e. rw e),
      rw (eq_refl id, h.1),
    );
  }

  pub Triple-put_lease :
      (id : String) (x : Option Lease) (row : Lease)
      → (IsSound? id x → IsSound id row)
      → (IsSound? id x → Advances x (some row))
      → Triple Kept (Holds id x) (put_lease id row) (λ _. Holds id (some row))
  unfolding put_lease modify
  Triple-put_lease id x row sound moved = record {
    at = λ s h. (
      LeasesAdvance-change t0 s.leases _ id (some row) h.0
          (sound (subst (IsSound? id) h.1 (h.0.sound id)))
          (subst (λ y. Advances y (some row)) (sym h.1)
            (moved (subst (IsSound? id) h.1 (h.0.sound id))))
          (λ j e. rw e) (λ j e. rw e),
      rw (eq_refl id),
    );
  }

  pub Triple-append_event :
      (id : String) (x : Option Lease) (lease : Lease) (type : LeaseEventType)
      (actor correlation : String) (reason evidence : Option String)
      → Triple Kept
          (Holds id x)
          (append_event lease type actor correlation reason evidence)
          (λ _. Holds id x)
  unfolding append_event ◌>>=◌ fresh now
  Triple-append_event id x lease type actor correlation reason evidence = record { at = λ s h. h }

  pub Triple-idle :
      (id : String) (x : Option Lease) (worktree : String) (durable : Bool)
      → Triple Kept (Holds id x) (assert_physical_worktree_idle worktree durable) (λ _. Holds id x)
  unfolding assert_physical_worktree_idle
  Triple-idle id x worktree durable =
      Triple-bind _ _ (Triple-gets (λ w. is_idle w worktree))
        λ idle. Triple-weaken (λ s h. h.0) (Triple-check-Kept id x idle _) (λ a s h. h)

  pub Triple-bounded_duration :
      (id : String) (x : Option Lease) (duration : ℕ)
      → Triple Kept (Holds id x) (bounded_duration duration) (λ _. Holds id x)
  Triple-bounded_duration id x duration =
      Triple-bind _ _ (Triple-check-Kept id x _ _)
        λ _. Triple-weaken (λ s h. h) (Triple-pure duration) (λ a s h. h.0)

  pub Triple-authority_result :
      (id : String) (x : Option Lease) (lease : Lease) (observed : ℕ)
      → Triple Kept (Holds id x) (authority_result lease observed) (λ _. Kept)
  unfolding authority_result
  Triple-authority_result id x lease observed =
      Triple-bind _ _ (Triple-or_throw lease.lease_token _ (λ s h. h.0)) λ token.
        Triple-bind _ _ (Triple-or_throw lease.expires_at _ (λ s h. h.0.0))
          λ expiry. Triple-weaken (λ s h. h) (Triple-pure _) (λ a s h. h.0.0.0.0)

  -- the last step of a command
  pub Triple-result :
      {A : Type 0} (id : String) (x : Option Lease) (a : A)
      → Triple Kept (Holds id x) (pure a) (λ _. Kept)
  Triple-result id x a = Triple-weaken (λ s h. h) (Triple-pure a) (λ b s h. h.0.0)
