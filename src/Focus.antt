-- ===== src/Focus.antt =====
-- internal/tui/tui/focus.go: the keyboard focus.
pub mod State
pub mod Operations
pub mod Invariant
pub mod Reach
pub mod Walk
pub mod Visited
pub mod Visits
pub mod Removal
pub mod Rebuild
mod Tests
