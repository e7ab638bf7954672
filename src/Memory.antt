-- ===== src/Memory.antt =====
-- The store in memory that stands in for Redis (backend/src/infra): its keys with their expiry, the
-- commands, atomic scripts and snapshots, and what they are to a reader for whom a key expires at once.
pub mod Keyspace
pub mod Maps
pub mod Commands
pub mod Execute
pub mod Eager
pub mod Laws
pub mod Steps
pub mod Loops
pub mod Refinement
pub mod Snapshot
pub mod Restored
mod Examples
