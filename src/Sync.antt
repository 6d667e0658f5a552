-- ===== src/Sync.antt =====
-- src/simplest_game_sync.rs: the lockstep engine of a game.
pub mod Cache
pub mod Outcome
pub mod Core
pub mod Cached
pub mod Delayed
