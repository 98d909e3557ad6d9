-- ===== src/Kernel/Leases/Exclusion.antt =====
-- packages/kernel/src/worktree-writer-leases.ts: one writer at a time, and fencing of the others.
use torsor.Prelude.{
  ℕ, ◌+◌, ◌≤◌, ◌<◌, String, ◌≡◌, refl, subst, true, Option, none, some, arith, leb, ◌&&◌,
}
use torsor.Kernel.Action.{returned, ◌>>=◌}
use torsor.Kernel.Rows.{Principal, Lease, is_runtime}
use torsor.Kernel.World.{World, now}
use torsor.Kernel.Results.{CommandResult}
use torsor.Kernel.Leases.Rows.{require_runtime}
use torsor.Kernel.Leases.Sound.{LeasesSound, LeasesAdvance, Advances}
use torsor.Kernel.Leases.Authority.{LeaseAuthority, require_live_authority}
use torsor.Kernel.Leases.Authorized.{Authorizes, require_live_authority-Authorizes}
use torsor.Kernel.Leases.Grants.{Granted, Granted-row}
use torsor.Kernel.Leases.Commands.{acquire_at, acquire_worktree_writer_lease}

-- the command, past its checks
acquire_inner :
    (id : String) (d : ℕ) (p : Principal) (correlation : String) (w : World) {r : CommandResult}
    {w' : World}
    → acquire_worktree_writer_lease id d p correlation w ≡ returned r w'
    → (is_runtime p.kind ≡ true)
      × (leb 1000 d && leb d 300000 ≡ true)
      × (acquire_at id d p correlation (w.clock w.reads) (record w { reads = w.reads + 1 })
          ≡ returned r w')
unfolding acquire_worktree_writer_lease require_runtime now ◌>>=◌
acquire_inner id d p correlation w h = ground arith

-- A successful acquisition needs a runtime principal and a duration of 1 to 300 seconds. It leaves an
-- Active row that the principal holds until the instant observed plus the duration, the result
-- carries that row's token, generation and fencing token, and all three counters of the row lie
-- above those of the row that stood there before.
pub acquire-Granted :
    (id : String) (d : ℕ) (p : Principal) (correlation : String) (w : World) {r : CommandResult}
    {w' : World}
    → LeasesSound w.leases
    → acquire_worktree_writer_lease id d p correlation w ≡ returned r w'
    → (is_runtime p.kind ≡ true)
      × (leb 1000 d && leb d 300000 ≡ true)
      × Granted p (w.clock w.reads + d) r (w.leases id) (w'.leases id)
acquire-Granted id d p correlation w s h =
    let (k, b, e) = acquire_inner id d p correlation w h in
    (
      k,
      b,
      Granted-row id d p correlation (w.clock w.reads) (record w { reads = w.reads + 1 })
          (w.leases id) refl (s id) e,
    )

fenced_off :
    (x y z : Option Lease) (r : CommandResult) (p : Principal) (e : ℕ) (l m : Lease)
    (a : LeaseAuthority)
    → Granted p e r (some l) y
    → Advances y z
    → z ≡ some m
    → a.fencing_token ≤ l.fencing_token
    → l.fencing_token < m.fencing_token
fenced_off x none z r p e l m a g v f le = elim g [ ]
fenced_off x (some n) none r p e l m a g v f le = elim v [ ]
fenced_off x (some n) (some k) r p e l m a g v f le = ground arith

exact_fencing :
    (a : LeaseAuthority) (p : Principal) (at : ℕ) (m : Lease)
    → Authorizes a p at m
    → m.fencing_token ≡ a.fencing_token
exact_fencing a p at m h = ground arith

-- Fencing: once an acquisition of a Worktree has succeeded, no authority whose fencing token is one
-- that the row before it had, or older, passes the check again, in whatever sound state follows
-- and at any instant.
pub acquire-fences :
    (id : String) (d : ℕ) (p : Principal) (correlation : String) (w w₁ w₂ : World)
    (r : CommandResult) (l : Lease) (a : LeaseAuthority) (q : Principal) (at : ℕ) (other : String)
    (m : Lease) (w₃ : World)
    → LeasesSound w.leases
    → w.leases id ≡ some l
    → acquire_worktree_writer_lease id d p correlation w ≡ returned r w₁
    → LeasesAdvance w₁.leases w₂.leases
    → a.worktree_id ≡ id
    → a.fencing_token ≤ l.fencing_token
    → ¬ (require_live_authority a q at other w₂ ≡ returned m w₃)
acquire-fences id d p correlation w w₁ w₂ r l a q at other m w₃ s e h v i le ok =
    let (z, same, found) = require_live_authority-Authorizes a q at other w₂ ok in
    let g = (acquire-Granted id d p correlation w s h).2 in
    absurd (
      omega (
        arith,
        exact_fencing a q at m z,
        fenced_off (some l) (w₁.leases id) (w₂.leases id) r p (w.clock w.reads + d) l m a
            (subst (λ x. Granted p (w.clock w.reads + d) r x (w₁.leases id)) e g) (v.advances id)
            (subst (λ k. w₂.leases k ≡ some m) i found) le,
      ))
