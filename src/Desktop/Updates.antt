-- ===== src/Desktop/Updates.antt =====
-- desktop/src/updates: what the launch check offers (Pending) and how it is driven (Launch).
pub mod Pending
pub mod Launch
pub mod Laws
pub mod Wait
mod Tests
