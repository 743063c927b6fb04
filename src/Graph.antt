-- ===== src/Graph.antt =====
-- The graph's data: src/types.ts with the constants of src/constants.ts, and the keys of
-- src/validation.ts. Instants are canonical ISO texts; `Instant` has their epoch.
pub mod Types
pub mod Instant
pub mod Keys
pub mod Constants
pub mod Fingerprint
mod Tests
