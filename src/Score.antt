-- ===== src/Score.antt =====
-- The scores of Yacht (backend/src/game/score).
pub mod Category
pub mod Calculator
pub mod Counts
pub mod Hands
pub mod Worth
pub mod Reorder
pub mod Confirm
pub mod Sums
pub mod Repeats
mod Examples
