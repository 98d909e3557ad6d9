-- ===== src/Kernel/Leases/Durable.antt =====
-- packages/kernel/src/worktree-writer-leases.ts with kernel.ts: the durable errors.
use torsor.Prelude.{
  ◌+◌, String, ◌≡◌, refl, true, false, Option, none, some, arith, eq_iff, str_eq, Bool-cases, ◌⊎◌,
  inl, inr, if◌then◌else◌,
}
use torsor.Kernel.Errors.{KernelError}
use torsor.Kernel.Action.{Outcome, returned, thrown}
use torsor.Kernel.Rows.{Principal, Lease}
use torsor.Kernel.World.{World}
use torsor.Kernel.Transaction.{transact, settle}
use torsor.Kernel.Leases.Rows.{expire, is_lapsed}
use torsor.Kernel.Leases.Sound.{LeasesSound}
use torsor.Kernel.Leases.Dispatch.{LeaseCommand, dispatch_lease}
use torsor.Kernel.Leases.Thrown.{subject, OnlyExpired, Recorded, durable_at_subject}

-- The database after the recorded expiry of one lapsed row: the row is Expired, every other row is as
-- it was, one event tells the expiry, and every other table is as it was.
pub record Expiry (w w' : World) (actor correlation id : String) : Type 0 where
  pub lease : Lease
  pub stored : w.leases id ≡ some lease
  pub due : is_lapsed lease (w.clock w.reads) ≡ true
  pub table :
      (j : String)
      → w'.leases j ≡ (if str_eq j id then some (expire (w.clock w.reads) lease) else w.leases j)
  pub recorded : Recorded w w' actor correlation lease (w.clock w.reads) (w.clock (w.reads + 1))

to_Expiry :
    (w w' : World) (actor correlation id : String) (x : Option Lease)
    → w.leases id ≡ x
    → OnlyExpired w w' actor correlation id x
    → Expiry w w' actor correlation id
to_Expiry w w' actor correlation id none e h = absurd h.0
to_Expiry w w' actor correlation id (some l) e h = record {
  lease = l;
  stored = e;
  due = h.0.0;
  table = λ j. elim (Bool-cases (str_eq j id)) [
    | inl same ↦ rw (same, (eq_iff j id).0 same) h.0.1
    | inr other ↦ rw other (h.1 j other)
  ];
  recorded = h.2;
}

thrown_inside :
    {A : Type 0} (w : World) (x : Outcome World A) {e : KernelError} {w' : World}
    → settle w x ≡ thrown e w'
    → ((e.durable ≡ false) × (w'.db ≡ w.db)) ⊎ ((e.durable ≡ true) × (x ≡ thrown e w'))
thrown_inside w (returned a v) h = ground arith
thrown_inside w (thrown f v) h = ground arith

-- A transaction of a lease command that throws, from a table of sound rows, leaves the database as it
-- was, unless the error is durable: then the command's own Worktree had a lapsed lease, which has been
-- marked Expired; every other lease is as it was; one event that tells the expiry, with the command's
-- principal and correlation, is added to the lease events; and every other table is as it was.
pub transact-lease_thrown :
    (c : LeaseCommand) (p : Principal) (correlation : String) (w : World) {e : KernelError}
    {w' : World}
    → LeasesSound w.leases
    → transact (dispatch_lease c p correlation) w ≡ thrown e w'
    → ((e.durable ≡ false) × (w'.db ≡ w.db))
      ⊎ ((e.durable ≡ true) × Expiry w w' p.id correlation (subject c))
unfolding transact
transact-lease_thrown c p correlation w {e} {w'} s h =
    elim (thrown_inside w (dispatch_lease c p correlation w) h) [
      | inl plain ↦ inl plain
      | inr (k, inside) ↦ inr (
        k,
        to_Expiry w w' p.id correlation (subject c) (w.leases (subject c)) refl
            (durable_at_subject w p correlation e w' c s inside k),
      )
    ]
