-- ===== src/Frontend/Drawings.antt =====
-- The chart's drawing layer, frontend/src/lib/drawings.
pub mod Shapes
pub mod Tools
pub mod Anchors
pub mod Editor
pub mod Storage
mod Tests
