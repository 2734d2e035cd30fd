-- ===== src/Dailies.antt =====
-- Dailies: app/game/daily_service.py, less what it calls in the engine.
pub mod Recurrence
pub mod Check
pub mod Sweep
mod Examples
