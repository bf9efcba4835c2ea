-- ===== src/Playback.antt =====
-- The playback side: src/playback.
pub mod Queue
pub mod Engine
