-- ===== src/Deadlines.antt =====
-- The scheduler of deadlines (backend/src/game/round/deadlineScheduler.ts), which all games use.
pub mod Scheduler
pub mod Slots
pub mod Once
pub mod Calls
pub mod Cancelled
mod Examples
