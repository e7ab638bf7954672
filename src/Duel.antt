-- ===== src/Duel.antt =====
-- The quick-draw duel (backend/src/game/duel).
pub mod Types
pub mod Round
pub mod Rules
pub mod Timeout
pub mod Outcome
pub mod Match
pub mod Clock
pub mod Verdicts
pub mod Scores
pub mod Progress
mod Examples
