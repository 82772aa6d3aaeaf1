-- ===== src/Input.antt =====
-- internal/tui/input: from the bytes of the terminal to typed events.
pub mod Events
pub mod Text
pub mod Protocol
pub mod Sequences
pub mod Parser
mod Tests
