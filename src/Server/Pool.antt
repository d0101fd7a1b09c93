-- ===== src/Server/Pool.antt =====
-- server.py: `ThreadPoolXMLRPCServer` at work. The accept thread runs `process_request`, the threads
-- of the executor run `_process_request_worker`, and a caller runs `shutdown_executor` or
-- `server_close`. A step of a thread is one statement of its method; what the calls of the standard
-- library do (return or raise) is an argument of the step.
pub mod State
pub mod Accept
pub mod Worker
pub mod Close
pub mod System
pub mod Steps
mod Tests
mod CallTests
pub mod Weights
pub mod WorkerLaws
pub mod AcceptLaws
pub mod Invariant
pub mod Capacity
pub mod Liveness
pub mod Shutdown
pub mod Closing
pub mod Returns
pub mod Admission
pub mod Moves
pub mod View
pub mod Effects
pub mod Refine
pub mod Trace
pub mod Calls
pub mod Process
pub mod WorkerCall
