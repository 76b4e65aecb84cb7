-- ===== src/Connection.antt =====
-- asusrouter/connection.py: the connection to the router, from its state to its sessions and logs.
pub mod State
pub mod Body
pub mod Fallback
pub mod Request
pub mod Session
pub mod Logging
