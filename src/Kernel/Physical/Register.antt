-- ===== src/Kernel/Physical/Register.antt =====
-- packages/kernel/src/physical-worktrees.ts: the registration of a Worktree. The three path functions
-- are those of node:path.
use Prim.Native.Char.{code}
use torsor.Prelude.{
  ℕ, zero, suc, String, Bool, true, false, not, ◌&&◌, ◌||◌, Option, none, some, [], ◌∷◌, ◌++◌,
  str_eq, leb, ◌==◌, any_row, is_none, if◌then◌else◌,
}
use torsor.Kernel.Errors.{kernel_error, conflict, invalid_command}
use torsor.Kernel.Action.{pure, check, gets, modify, ◌>>=◌, ◌>>◌}
use torsor.Kernel.Values.{require_non_empty}
use torsor.Kernel.Rows.{Principal, PhysicalWorktree, ready}
use torsor.Kernel.World.{Command, now}
use torsor.Kernel.Results.{CommandResult, bare_result}
use torsor.Kernel.Activations.Validity.{require_run}
use torsor.Kernel.Physical.Rows.{require_runtime}

pub record NodePath : Type 0 where
  pub relative : String → String → String
  pub is_absolute : String → Bool
  pub sep : String

-- what follows a prefix
unfoldable pub strip_prefix : String → String → Option String
strip_prefix String.[] s = some s
strip_prefix (String.◌∷◌ c cs) String.[] = none
strip_prefix (String.◌∷◌ c cs) (String.◌∷◌ d ds) =
    let rest = strip_prefix cs ds in if code c == code d then rest else none

abbrev pub starts_with : String → Option String → Bool
starts_with prefix none = false
starts_with prefix (some s) = not (is_none (strip_prefix prefix s))

abbrev pub contains : NodePath → String → String → Bool
contains paths parent child =
    let path = paths.relative parent child in
    str_eq path ""
    || not (paths.is_absolute path)
      && not (str_eq path "..")
      && not (starts_with paths.sep (strip_prefix ".." path))

abbrev pub is_hex : ℕ → Bool
is_hex c = leb 97 c && leb c 102 || leb 48 c && leb c 57

-- exactly so many digits
unfoldable pub is_hex_of : ℕ → String → Bool
is_hex_of zero String.[] = true
is_hex_of zero (String.◌∷◌ c s) = false
is_hex_of (suc n) String.[] = false
is_hex_of (suc n) (String.◌∷◌ c s) = is_hex (code c) && is_hex_of n s

-- RegisterPhysicalWorktree
pub record RegisterCommand : Type 0 where
  pub worktree_id : String
  pub run_id : String
  pub repository_id : String
  pub repository_path : String
  pub base_revision : String
  pub directory_path : String
  pub directory_identity : String

abbrev pub overlaps : NodePath → String → PhysicalWorktree → Bool
overlaps paths directory worktree =
    contains paths worktree.directory_path directory
    || contains paths directory worktree.directory_path

abbrev pub registered : RegisterCommand → ℕ → PhysicalWorktree
registered c at = record {
  worktree_id = c.worktree_id;
  run_id = c.run_id;
  repository_id = c.repository_id;
  repository_path = c.repository_path;
  base_revision = c.base_revision;
  directory_path = c.directory_path;
  directory_identity = c.directory_identity;
  state = ready;
  created_at = at;
}

-- PRIMARY KEY and the two UNIQUE columns
abbrev pub clashes : PhysicalWorktree → PhysicalWorktree → Bool
clashes row worktree =
    str_eq worktree.worktree_id row.worktree_id
    || str_eq worktree.directory_path row.directory_path
    || str_eq worktree.directory_identity row.directory_identity

unfoldable pub register_physical_worktree :
    NodePath → RegisterCommand → Principal → Command CommandResult
register_physical_worktree paths c principal = do
  require_runtime principal
  require_non_empty c.worktree_id
  require_non_empty c.repository_id
  require_non_empty c.repository_path
  require_non_empty c.directory_path
  require_non_empty c.directory_identity
  check (is_hex_of 40 c.base_revision || is_hex_of 64 c.base_revision)
      (kernel_error invalid_command)
  _ ← require_run c.run_id
  overlap ← gets (λ w. any_row (overlaps paths c.directory_path) w.physical_worktrees)
  check (not overlap) (kernel_error conflict)
  at ← now
  clash ← gets (λ w. any_row (clashes (registered c at)) w.physical_worktrees)
  check (not clash) (kernel_error conflict)
  modify λ w. record w {
    db = record w.db { physical_worktrees = w.physical_worktrees ++ registered c at ∷ [] };
  }
  pure (bare_result c.worktree_id)
