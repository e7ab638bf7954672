-- ===== src/Pingpong.antt =====
-- Ping pong (backend/src/game/pingpong): a point-by-point match whose ball is computed, not ticked.
pub mod Types
pub mod Court
pub mod Scoring
pub mod Rules
pub mod Service
pub mod Match
pub mod History
pub mod Timers
pub mod Reservations
pub mod Calls
pub mod Starts
pub mod Requests
mod Examples
