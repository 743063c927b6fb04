-- ===== src/Store.antt =====
-- src/in-memory-store.ts: the deterministic reference adapter, a journal of assertions with four
-- indexes and a list in the order of recording. The methods take arguments of the declared types.
pub mod Bisect
pub mod Index
pub mod State
pub mod Append
pub mod Forget
pub mod Recorded
pub mod Verify
pub mod Invariant
pub mod Sound
pub mod Reachable
pub mod Tests
