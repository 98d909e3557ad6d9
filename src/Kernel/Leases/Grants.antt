-- ===== src/Kernel/Leases/Grants.antt =====
-- packages/kernel/src/worktree-writer-leases.ts: what a successful acquisition hands out.
use torsor.Prelude.{ℕ, ◌+◌, ◌<◌, String, ◌≡◌, Option, none, some, arith, eq_iff}
use torsor.Kernel.Action.{returned, ◌>>=◌}
use torsor.Kernel.Rows.{Principal, Lease, active}
use torsor.Kernel.World.{World, now, fresh}
use torsor.Kernel.Results.{CommandResult, map_lease}
use torsor.Kernel.Physical.Idle.{assert_physical_worktree_idle}
use torsor.Kernel.Leases.Rows.{
  require_lease, get_lease, update_lease, put_lease, append_event, expire_lease, expire_if_needed,
  authority_result,
}
use torsor.Kernel.Leases.Sound.{IsSound?}
use torsor.Kernel.Leases.Commands.{acquire_at}

-- The counters of a new row lie above those of the row before it.
abbrev pub Newer : Option Lease → Lease → Type 0
Newer none l = (0 < l.generation) × (0 < l.fencing_token)
Newer (some m) l =
    (m.revision < l.revision) × (m.generation < l.generation) × (m.fencing_token < l.fencing_token)

-- The result `r` speaks of the stored row `l`, which the principal holds until `expiry`.
pub record Grants (p : Principal) (expiry : ℕ) (r : CommandResult) (l : Lease) : Type 0 where
  pub held : l.status ≡ active
  pub holder : l.holder_principal_id ≡ some p.id
  pub token : r.lease_token ≡ l.lease_token
  pub generation : r.lease_generation ≡ some l.generation
  pub fencing : r.fencing_token ≡ some l.fencing_token
  pub until : l.expires_at ≡ some expiry
  pub view : r.worktree_writer_lease ≡ some (map_lease l)

abbrev pub Granted : Principal → ℕ → CommandResult → Option Lease → Option Lease → Type 0
Granted p expiry r before none = ⊥
Granted p expiry r before (some l) = Grants p expiry r l × Newer before l

module _ (id : String) (d : ℕ) (p : Principal) (correlation : String) (at : ℕ) (w : World) where
  pub Granted-row :
      (x : Option Lease)
      → w.leases id ≡ x
      → IsSound? id x
      → {r : CommandResult} {w' : World} → acquire_at id d p correlation at w ≡ returned r w'
      → Granted p (at + d) r x (w'.leases id)
  unfolding acquire_at expire_if_needed require_lease get_lease put_lease update_lease fresh now
      expire_lease append_event authority_result assert_physical_worktree_idle ◌>>=◌
  Granted-row none e s h = ground (arith, eq_iff id id)
  Granted-row (some m) e s h =
      ground (arith, eq_iff id id, eq_iff id m.worktree_id, eq_iff m.worktree_id m.worktree_id)
