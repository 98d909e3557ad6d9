-- ===== src/Kernel/Leases/Authorized.antt =====
-- packages/kernel/src/worktree-writer-leases.ts: what a returned authority check has checked.
use torsor.Prelude.{ℕ, String, ◌≡◌, refl, true, Option, none, some, arith, is_text}
use torsor.Kernel.Action.{returned, ◌>>=◌}
use torsor.Kernel.Rows.{Principal, Lease, is_active}
use torsor.Kernel.World.{World}
use torsor.Kernel.Leases.Rows.{require_lease, get_lease, expire_lease}
use torsor.Kernel.Leases.Authority.{
  LeaseAuthority, matches_authority, is_before_expiry, refuse_lapsed, require_live_authority,
}

-- The row under the key of an authority is Active, carries exactly that authority, is held by the
-- principal, and has not come to its time.
pub record Authorizes (a : LeaseAuthority) (p : Principal) (at : ℕ) (l : Lease) : Type 0 where
  pub held : is_active l.status ≡ true
  pub exact : matches_authority l a ≡ true
  pub holder : is_text l.holder_principal_id p.id ≡ true
  pub unexpired : is_before_expiry l.expires_at at ≡ true

module _ (a : LeaseAuthority) (p : Principal) (at : ℕ) (correlation : String) (w : World) where
  authorized_row :
      (x : Option Lease)
      → w.leases a.worktree_id ≡ x
      → {l : Lease} {w' : World} → require_live_authority a p at correlation w ≡ returned l w'
      → Authorizes a p at l × (w' ≡ w) × (x ≡ some l)
  unfolding require_live_authority refuse_lapsed require_lease get_lease expire_lease ◌>>=◌
  authorized_row none e h = ground arith
  authorized_row (some m) e h = ground arith

  -- An authority check that returns has found the row of its Worktree, which is Active, carries
  -- exactly this authority, is held by the principal and has not come to its time; and nothing was
  -- written.
  pub require_live_authority-Authorizes :
      {l : Lease} {w' : World}
      → require_live_authority a p at correlation w ≡ returned l w'
      → Authorizes a p at l × (w' ≡ w) × (w.leases a.worktree_id ≡ some l)
  require_live_authority-Authorizes h = authorized_row (w.leases a.worktree_id) refl h
