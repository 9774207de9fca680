-- ===== src/Transaction.antt =====
-- Database transactions: apps/web/src/lib/serializable-transaction.ts and
-- apps/web/src/lib/prisma-errors.ts. A transaction body reads and writes a store and may throw; what
-- it wrote before a throw is rolled back, so a failure carries no store.
pub mod Core
pub mod Retry
pub mod Rules
pub mod Laws
pub mod Bound
pub mod Runs
pub mod Safe
pub mod Writes
mod Tests
pub use Core.{
  Failure, domain, unique, write_conflict, retries_exhausted, unknown, UniqueViolation, Result, ok,
  err, Tx, Action, Schedule, Attempt, Commit, committed, conflicted, violated, broken,
}
unfoldable pub use Core.{
  pure, throw, throw_failure, gets, modify, write, ◌>>=◌, ◌>>◌, require, or_throw, or_else,
  is_retryable_write_conflict, is_unique_violation_on, is_residual_database_conflict,
}
unfoldable pub use Writes.{write_unless, updated_row}
unfoldable pub use Retry.{
  retry_loop, run_serializable_with_retry, with_handler, read_now, max_serializable_retries,
}
