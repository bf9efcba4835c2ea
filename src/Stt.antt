-- ===== src/Stt.antt =====
-- Speech recognition: src/stt.
pub mod Base64
pub mod Envelope
