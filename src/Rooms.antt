-- ===== src/Rooms.antt =====
-- The rooms of the lobby (backend/src/room): the scripts that change a room, and the services on them.
pub mod Hashes
pub mod Store
pub mod Scripts
pub mod Seats
pub mod Laws
pub mod Valid
pub mod Entering
pub mod Leaving
pub mod Phases
pub mod Clock
pub mod Making
pub mod History
mod Examples
