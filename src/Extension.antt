-- ===== src/Extension.antt =====
-- The browser extension, extension/src.
pub mod Cache
pub mod Api
pub mod Background
pub mod Detect
pub mod Annotate
pub mod Walk
pub mod Sites
pub mod Content
mod Tests
