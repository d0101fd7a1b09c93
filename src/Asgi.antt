-- ===== src/Asgi.antt =====
-- asgi.py: `XMLRPCASGIApp`.
pub mod Host
pub mod App
pub mod Body
pub mod Dispatch
pub mod Http
pub mod Lifespan
pub mod Session
pub mod Jobs
pub mod Loop
mod Tests
