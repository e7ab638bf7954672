-- ===== src/Completion.antt =====
-- The end of a game: the ranking of the totals (backend/src/game/completion).
pub mod Ranking
pub mod Ranks
pub mod Results
pub mod Finish
mod Examples
