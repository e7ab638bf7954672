-- ===== src/Round.antt =====
-- The rounds of Yacht: turns, rolls and submissions (backend/src/game/round).
pub mod Types
pub mod Contracts
pub mod Rules
pub mod Valid
pub mod Ends
pub mod Departures
pub mod Progress
pub mod Calls
mod Examples
