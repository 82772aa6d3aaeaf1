-- ===== src/Store.antt =====
-- internal/store: the client's view of Discord's state.
pub mod Rich
pub mod Message
pub mod Ring
pub mod Permissions
pub mod Ordering
pub mod Sorting
pub mod Data
pub mod Threads
pub mod State
pub mod Unread
pub mod Channels
pub mod Guilds
pub mod Tombstones
pub mod History
pub mod Members
