-- ===== src/Idempotency.antt =====
-- Request idempotency, in app/middleware/idempotency.py. The world `W` that a request changes holds
-- the Redis store and the application's own data; JSON, UTF-8, SHA-256, UUID and JWT are parameters.
pub mod Http
pub mod Redis
pub mod Middleware
