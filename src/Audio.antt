-- ===== src/Audio.antt =====
-- The audio front end: src/audio.
pub mod Endpointer
pub mod SpscRing
pub mod HalfDuplexGate
pub mod UtteranceBuffer
pub mod Wav
