-- ===== src/Davinci.antt =====
-- The Da Vinci Code game (backend/src/game/davinci).
pub mod Types
pub mod Tiles
pub mod View
pub mod TurnFlow
pub mod Rules
pub mod Versions
pub mod Play
pub mod Frames
pub mod Replays
pub mod Deadlines
pub mod Jokers
pub mod Conservation
pub mod Order
pub mod Secrecy
pub mod Turns
pub mod Setup
pub mod Input
pub mod Opening
pub mod Service
mod Examples
