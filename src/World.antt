-- ===== src/World.antt =====
-- The program's surroundings: the calls that it makes, the answers that it may get, and the monad in
-- which its functions run. An environment answers each call from the calls made before, newest
-- first, so that it may change between any two calls; nothing is assumed of it here.
mod Calls
mod Monad
pub mod Breaks
pub mod Costs
pub mod Emits
pub mod Ensures
pub mod Guards
pub mod Reads
pub mod Runs
pub mod Triples
pub use Calls.{Call, Pages, Response, Env, is_write, writes}
unfoldable pub use Monad.{
  M, pure, fail, panic, ask, or_fail, non_nil, on_error, attempt, handle, ◌>>=◌, ◌>>◌,
}
pub use Monad.{Outcome-cases}
