-- ===== src/Game.antt =====
-- The scoring engine of the game, app/game/engine.py.
pub mod Number
pub mod Decimal
pub mod Rates
pub mod Profile
pub mod Award
pub mod Damage
pub mod Payload
pub mod Reward
pub mod Event
pub mod Character
mod Examples
