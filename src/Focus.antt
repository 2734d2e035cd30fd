-- ===== src/Focus.antt =====
-- app/game/session_engine.py: the wall-clock state machine of focus sessions.
pub mod Types
pub mod Audit
pub mod Skip
pub mod Evaluate
pub mod Controls
pub mod Finish
pub mod History
pub mod Start
mod Examples
