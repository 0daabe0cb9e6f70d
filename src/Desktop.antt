-- ===== src/Desktop.antt =====
-- The desktop shell, desktop/src.
pub mod Seen
pub mod Poller
pub mod Store
pub mod Updates
pub mod Window
pub mod Oauth
pub mod Shell
mod Tests
