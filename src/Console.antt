-- ===== src/Console.antt =====
-- The control console of the host (cmd/getsloth/host_control_*.go), which runs as a process of its
-- own: its history of round-trip times and its charts, its layout, its keys and its requests.
pub mod History
pub mod Charts
pub mod Keybar
pub mod Client
pub mod Screen
pub mod Layout
pub mod Canvas
pub mod Draw
pub mod Panels
pub mod Join
pub mod Dashboard
pub mod View
