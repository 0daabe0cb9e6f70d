-- ===== src/Frontend.antt =====
-- The single-page application, frontend/src.
pub mod Drawings
pub mod EventStream
pub mod LocalOrder
pub mod SortableRows
pub mod RiskStatus
pub mod Watchlists
pub mod Nav
pub mod UpdateStatus
pub mod Auth
pub mod Api
pub mod Dashboard
pub mod Floating
pub mod Tooltip
pub mod Updates
pub mod ServerStatus
pub mod CommandPalette
mod Tests
