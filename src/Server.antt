-- ===== src/Server.antt =====
-- server.py: the thread pool XML-RPC server.
pub mod Stats
pub mod Config
pub mod Pool
pub mod Handler
pub mod HandlerClass
pub mod Init
pub mod Reject
pub mod Rejection
