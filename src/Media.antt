-- ===== src/Media.antt =====
-- internal/media: decoded images and their cache.
pub mod Image
pub mod Cache
mod Tests
