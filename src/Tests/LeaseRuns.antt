-- ===== src/Tests/LeaseRuns.antt =====
-- packages/kernel/src/worktree-writer-leases.ts at one Worktree.
use torsor.Prelude.{
  ◌<◌, ◌+◌, some, ◌≡◌, refl, some, true, false, leb, arith, is_blank, is_space, first_row, any_row,
  ◌&&◌, ◌⊎◌,
}
use torsor.Kernel.Errors.{durable_kernel_error, conflict}
use torsor.Kernel.Action.{returned, thrown, final, ◌>>=◌}
use torsor.Kernel.Rows.{is_runtime}
use torsor.Kernel.World.{World, now, fresh}
use torsor.Kernel.Results.{CommandResult, bare_result}
use torsor.Kernel.Transaction.{transact}
use torsor.Kernel.Physical.Idle.{is_idle, assert_physical_worktree_idle}
use torsor.Kernel.Leases.Rows.{
  require_lease, get_lease, update_lease, put_lease, append_event, expire_lease, expire_if_needed,
  authority_result, state_result, require_runtime,
}
use torsor.Kernel.Leases.Sound.{LeasesAdvance, LeasesAdvance-refl}
use torsor.Kernel.Leases.Authority.{LeaseAuthority, refuse_lapsed, require_live_authority}
use torsor.Kernel.Leases.Commands.{
  acquire_at, acquire_worktree_writer_lease, release_worktree_writer_lease,
  get_worktree_writer_lease,
}
use torsor.Kernel.Leases.Dispatch.{acquire, release, dispatch_lease}
use torsor.Kernel.Leases.Grants.{Granted}
use torsor.Kernel.Leases.Authorized.{Authorizes, require_live_authority-Authorizes}
use torsor.Kernel.Leases.Exclusion.{acquire-Granted, acquire-fences}
use torsor.Kernel.Leases.Durable.{transact-lease_thrown, Expiry}
use torsor.Kernel.Leases.Fencing.{
  dispatch_lease-LeasesAdvance, get_worktree_writer_lease-LeasesAdvance,
}
use torsor.Kernel.Leases.Cached.{resolve_cached_lease_authority, acquire-resolve_cached}
use torsor.Kernel.Leases.Rows.{authority_view}
use torsor.Kernel.Rows.{Lease}
use torsor.Tests.Worlds.{
  alice, bob, world_with, table_with, alice_lease, lapsed_lease, released_lease,
  table_with-LeasesSound, lapsed_lease-IsSound, released_lease-IsSound, result_or,
}

-- opens what the commands are made of
lease_code : Unit {0}
unfolding require_runtime require_lease get_lease put_lease update_lease fresh now expire_lease
    append_event authority_result state_result is_idle first_row any_row
    assert_physical_worktree_idle refuse_lapsed expire_if_needed is_blank is_space ◌>>=◌
lease_code = tt

abbrev free_world : World
free_world = world_with released_lease

granted_result : CommandResult
granted_result =
    result_or (bare_result "") (acquire_worktree_writer_lease "wt" 2000 bob "c" free_world)

granted_world : World
granted_world = final (acquire_worktree_writer_lease "wt" 2000 bob "c" free_world)

acquire_returns :
    acquire_worktree_writer_lease "wt" 2000 bob "c" free_world
    ≡ returned granted_result granted_world
unfolding granted_result granted_world acquire_worktree_writer_lease acquire_at lease_code
acquire_returns = refl

acquire-Granted_example :
    (is_runtime bob.kind ≡ true)
    × (leb 1000 2000 && leb 2000 300000 ≡ true)
    × Granted bob 2100 granted_result (some released_lease) (granted_world.leases "wt")
acquire-Granted_example =
    acquire-Granted "wt" 2000 bob "c" free_world
      (table_with-LeasesSound released_lease released_lease-IsSound) acquire_returns

-- what alice still has in hand after her release
abbrev old_authority : LeaseAuthority
old_authority = record {
  worktree_id = "wt";
  generation = 1;
  fencing_token = 1;
  lease_token = "secret";
}

granted-LeasesAdvance : LeasesAdvance granted_world.leases granted_world.leases
unfolding dispatch_lease granted_world
granted-LeasesAdvance =
    LeasesAdvance-refl granted_world.leases
      (dispatch_lease-LeasesAdvance (acquire "wt" 2000) bob "c" free_world
        (table_with-LeasesSound released_lease released_lease-IsSound)).sound

acquire-fences_example : ¬ (
    require_live_authority old_authority alice 150 "c" granted_world
    ≡ returned alice_lease granted_world)
acquire-fences_example =
    acquire-fences "wt" 2000 bob "c" free_world granted_world granted_world granted_result
      released_lease old_authority alice 150 "c" alice_lease granted_world
      (table_with-LeasesSound released_lease released_lease-IsSound) refl acquire_returns
      granted-LeasesAdvance refl (omega arith)

dispatch_lease-LeasesAdvance_example :
    LeasesAdvance
      (table_with lapsed_lease)
      (final (dispatch_lease (release old_authority) alice "c" (world_with lapsed_lease))).leases
dispatch_lease-LeasesAdvance_example =
    dispatch_lease-LeasesAdvance (release old_authority) alice "c" (world_with lapsed_lease)
      (table_with-LeasesSound lapsed_lease lapsed_lease-IsSound)

get_worktree_writer_lease-LeasesAdvance_example :
    LeasesAdvance
      (table_with lapsed_lease)
      (final (get_worktree_writer_lease "wt" bob (world_with lapsed_lease))).leases
get_worktree_writer_lease-LeasesAdvance_example =
    get_worktree_writer_lease-LeasesAdvance "wt" bob (world_with lapsed_lease)
      (table_with-LeasesSound lapsed_lease lapsed_lease-IsSound)

authority_returns :
    require_live_authority old_authority alice 150 "c" (world_with alice_lease)
    ≡ returned alice_lease (world_with alice_lease)
unfolding require_live_authority lease_code
authority_returns = refl

require_live_authority-Authorizes_example :
    Authorizes old_authority alice 150 alice_lease
    × (world_with alice_lease ≡ world_with alice_lease)
    × ((world_with alice_lease).leases "wt" ≡ some alice_lease)
require_live_authority-Authorizes_example =
    require_live_authority-Authorizes old_authority alice 150 "c" (world_with alice_lease)
      authority_returns

thrown_world : World
thrown_world =
    final (transact (dispatch_lease (release old_authority) alice "c") (world_with lapsed_lease))

release_throws :
    transact (dispatch_lease (release old_authority) alice "c") (world_with lapsed_lease)
    ≡ thrown (durable_kernel_error conflict) thrown_world
unfolding thrown_world transact dispatch_lease release_worktree_writer_lease require_live_authority
    lease_code
release_throws = refl

transact-lease_thrown_example :
    ((true ≡ false) × (thrown_world.db ≡ (world_with lapsed_lease).db))
    ⊎ ((true ≡ true) × Expiry (world_with lapsed_lease) thrown_world "alice" "c" "wt")
transact-lease_thrown_example =
    transact-lease_thrown (release old_authority) alice "c" (world_with lapsed_lease)
      (table_with-LeasesSound lapsed_lease lapsed_lease-IsSound) release_throws

granted_token :
    (granted_result.lease_token ≡ some "wlt") × (granted_world.clock granted_world.reads < 2100)
unfolding granted_result granted_world acquire_worktree_writer_lease acquire_at lease_code
granted_token = (refl, omega arith)

acquire-resolve_cached_example :
    (l : Lease) × ((granted_world.leases "wt" ≡ some l)
      × ((granted_result.lease_generation ≡ some l.generation)
          × (granted_result.fencing_token ≡ some l.fencing_token))
      × (resolve_cached_lease_authority "wt" granted_result bob granted_world
          ≡ returned
              (authority_view l "wlt" 2100 (granted_world.clock granted_world.reads))
              (record granted_world { reads = granted_world.reads + 1 })))
acquire-resolve_cached_example =
    acquire-resolve_cached "wt" 2000 bob "c" free_world granted_world granted_result "wlt"
      (table_with-LeasesSound released_lease released_lease-IsSound) acquire_returns granted_token.0
      refl granted_token.1
