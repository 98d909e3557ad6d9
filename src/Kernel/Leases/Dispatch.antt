-- ===== src/Kernel/Leases/Dispatch.antt =====
-- packages/kernel/src/kernel.ts: the lease commands of the switch of #dispatchCommand.
use torsor.Prelude.{ℕ, String}
use torsor.Kernel.Rows.{Principal}
use torsor.Kernel.World.{Command}
use torsor.Kernel.Results.{CommandResult}
use torsor.Kernel.Leases.Authority.{LeaseAuthority}
use torsor.Kernel.Leases.Commands.{
  acquire_worktree_writer_lease, renew_worktree_writer_lease, release_worktree_writer_lease,
}
use torsor.Kernel.Leases.Quarantine.{
  QuarantineCommand, ResolveCommand, quarantine_worktree_writer_lease,
  resolve_worktree_writer_lease_quarantine,
}

pub data LeaseCommand : Type 0 where
  acquire : String → ℕ → LeaseCommand
  renew : LeaseAuthority → ℕ → LeaseCommand
  release : LeaseAuthority → LeaseCommand
  quarantine : QuarantineCommand → LeaseCommand
  resolve : ResolveCommand → LeaseCommand

unfoldable pub dispatch_lease : LeaseCommand → Principal → String → Command CommandResult
dispatch_lease (acquire id duration) p correlation =
    acquire_worktree_writer_lease id duration p correlation
dispatch_lease (renew a duration) p correlation =
    renew_worktree_writer_lease a duration p correlation
dispatch_lease (release a) p correlation = release_worktree_writer_lease a p correlation
dispatch_lease (quarantine c) p correlation = quarantine_worktree_writer_lease c p correlation
dispatch_lease (resolve c) p correlation = resolve_worktree_writer_lease_quarantine c p correlation
