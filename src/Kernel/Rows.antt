-- ===== src/Kernel/Rows.antt =====
-- The rows of the tables of packages/kernel/src/schema.ts, a record for each table and a data type
-- for each column that a CHECK restricts to a set of words. A nullable column is an `Option`. An
-- instant is a number of milliseconds: the program keeps ISO texts, whose order is that of instants.
mod Worktree
mod Outbox
mod Runs
mod Messages
pub use Worktree.*
unfoldable pub use Outbox.*
pub use Runs.*
pub use Messages.*
