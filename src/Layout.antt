-- ===== src/Layout.antt =====
-- internal/tui/layout: a small flexbox solver that places boxes in terminal cells.
pub mod Types
pub mod Distribute
pub mod Solve
mod Tests
