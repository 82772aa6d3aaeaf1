-- ===== src/Screen.antt =====
-- internal/tui/screen: the buffer of cells that the widgets draw into, and its frames.
pub mod Cells
pub mod Colors
pub mod Nearest
pub mod Diff
pub mod Terminal
pub mod Row
pub mod Repaint
pub mod Loops
pub mod Frame
pub mod Pairs
pub mod Grid
pub mod Writes
pub mod SetCell
mod Tests
