-- ===== src/Relay.antt =====
-- internal/relay: the server that joins one host and its viewers.
pub mod RateLimit
pub mod Connection
pub mod Session
pub mod Presence
pub mod Control
pub mod Chat
pub mod KillSwitch
pub mod Auth
pub mod Probes
pub mod Server
pub mod Registry
