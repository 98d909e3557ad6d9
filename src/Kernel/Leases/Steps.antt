-- ===== src/Kernel/Leases/Steps.antt =====
-- packages/kernel/src/worktree-writer-leases.ts: expiry and the check of an authority keep the
-- rows sound, and the row that they read is the one in the table.
use torsor.Prelude.{ℕ, String, ◌≡◌, refl, subst, Bool, true, false, Option, none, some, arith, ◌&&◌}
use torsor.Kernel.Action.{pure}
use torsor.Kernel.Action.Triples.{
  Triple, Triple-pure, Triple-throw, Triple-bind, Triple-weaken, Triple-check, Triple-if,
  Triple-assume,
}
use torsor.Kernel.Rows.{Principal, Lease, lease_expired, is_active}
use torsor.Kernel.Leases.Rows.{expire, is_lapsed, expire_lease, expire_if_needed}
use torsor.Kernel.Leases.Sound.{IsSound, IsSound?, Table}
use torsor.Kernel.Leases.Statements.{
  Kept, Holds, Triple-check-Kept, Triple-require_lease, Triple-update_lease, Triple-append_event,
}
use torsor.Kernel.Leases.Authority.{LeaseAuthority, refuse_lapsed, require_live_authority}

and_left : (a b : Bool) → (a && b) ≡ true → a ≡ true
and_left true b h = refl
and_left false b h = h

expire-IsSound :
    (id : String) (at : ℕ) (l : Lease)
    → is_lapsed l at ≡ true
    → IsSound id l
    → IsSound id (expire at l)
expire-IsSound id at l lapsed h = ground arith

module _ (t0 : Table) where
  expire_lease-Triple :
      (l : Lease) (actor correlation : String) (at : ℕ)
      → is_lapsed l at ≡ true
      → Triple
          (Kept t0)
          (Holds t0 l.worktree_id (some l))
          (expire_lease l actor correlation at)
          (λ y. Holds t0 l.worktree_id y)
  unfolding expire_lease
  expire_lease-Triple l actor correlation at lapsed =
      Triple-bind _ _
        (Triple-update_lease t0 l.worktree_id l (expire at)
          (expire-IsSound l.worktree_id at l lapsed) (omega arith))
        λ _. Triple-bind _ _ (Triple-require_lease t0 l.worktree_id (some (expire at l))) λ gone.
          Triple-bind _ _
            (Triple-weaken (λ s h. h.0)
              (Triple-append_event t0 l.worktree_id (some gone) gone lease_expired actor correlation
                (some "lease_expired") none)
              (λ a s h. h))
            λ _. Triple-weaken (λ s h. h) (Triple-pure (some gone)) (λ y s h. rw (h.1) h.0)

  pub expire_if_needed-Triple :
      (id : String) (x : Option Lease) (actor correlation : String) (at : ℕ)
      → Triple
          (Kept t0)
          (Holds t0 id x)
          (expire_if_needed x actor correlation at)
          (λ y. Holds t0 id y)
  unfolding expire_if_needed pure
  expire_if_needed-Triple id none actor correlation at = record { at = λ s h. h }
  expire_if_needed-Triple id (some l) actor correlation at = record {
    at = λ s h.
        (subst
            (λ k.
              Triple (Kept t0) (Holds t0 k (some l))
                (expire_if_needed (some l) actor correlation at) (λ y. Holds t0 k y))
            (subst (IsSound? id) h.1 (h.0.sound id)).keyed
            (Triple-if _ _ _ (expire_lease-Triple l actor correlation at)
              (λ _. Triple-weaken (λ s h. h) (Triple-pure (some l)) (λ y s h. rw (h.1) h.0)))).at
          s h;
  }

  refuse_lapsed-Triple :
      (id : String) (l : Lease) (p : Principal) (at : ℕ) (correlation : String)
      → Triple
          (Kept t0)
          (Holds t0 id (some l))
          (refuse_lapsed l p at correlation)
          (λ _. Holds t0 id (some l))
  unfolding refuse_lapsed
  refuse_lapsed-Triple id l p at correlation = record {
    at = λ s h.
        (subst
            (λ k.
              Triple (Kept t0) (Holds t0 k (some l)) (refuse_lapsed l p at correlation)
                (λ _. Holds t0 k (some l)))
            (subst (IsSound? id) h.1 (h.0.sound id)).keyed
            (Triple-if _ _ _
              (λ lapsed.
                Triple-bind _ _ (expire_lease-Triple l p.id correlation at lapsed)
                  (λ _. Triple-throw _ (λ s h. h.0)))
              (λ _. Triple-weaken (λ s h. h) (Triple-pure tt) (λ y s h. h.0)))).at
          s h;
  }

  pub require_live_authority-Triple :
      (x : Option Lease) (a : LeaseAuthority) (p : Principal) (at : ℕ) (correlation : String)
      → Triple
          (Kept t0)
          (Holds t0 a.worktree_id x)
          (require_live_authority a p at correlation)
          (λ l s. Holds t0 a.worktree_id (some l) s × (is_active l.status ≡ true))
  unfolding require_live_authority
  require_live_authority-Triple x a p at correlation =
      Triple-bind _ _ (Triple-check-Kept t0 id x _ _) λ _.
        Triple-bind _ _ (Triple-check-Kept t0 id x _ _) λ _.
          Triple-bind _ _ (Triple-require_lease t0 id x) λ l.
            Triple-bind _ _
              (Triple-weaken (λ s h. h.0) (refuse_lapsed-Triple id l p at correlation) (λ a s h. h))
              λ _. Triple-bind _ _ (Triple-check-Kept t0 id (some l) _ _) λ _.
                Triple-bind _ _ (Triple-check-Kept t0 id (some l) _ _) λ _.
                  Triple-bind _ _ (Triple-check _ _ (λ s h. h.0)) λ _. Triple-assume λ held.
                    Triple-bind _ _ (Triple-check-Kept t0 id (some l) _ _) λ _.
                      Triple-weaken (λ s h. h) (Triple-pure l)
                        (λ m s h. rw (h.1) (h.0, and_left _ _ held))
    where
      id : String
      id = a.worktree_id
