-- ===== src/Lockdep.antt =====
-- synchronization/utils.cc: the lock dependency checker.
pub mod Bits
pub mod State
pub mod Ids
pub mod Follow
pub mod Calls
pub mod Invariant
pub mod Threads
pub mod Runs
mod Tests
