-- ===== src/Sync.antt =====
-- Offline sync: app/sync/lww.py and app/api/routers/sync.py.
pub mod Lww
pub mod Tables
pub mod Merge
pub mod Delta
pub mod Endpoint
mod Examples
