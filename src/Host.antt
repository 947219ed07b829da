-- ===== src/Host.antt =====
-- cmd/getsloth and internal/hostauth: the host process, as far as the relay talks to it.
pub mod Keyboard
pub mod Output
pub mod Grid
pub mod Secret
pub mod Password
pub mod Launch
pub mod ModePicker
pub mod QrCode
pub mod Status
pub mod Loop
pub mod Process
pub mod Follow
pub mod Control
