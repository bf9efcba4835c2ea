-- ===== src/Dialogue.antt =====
-- The dialogue core: src/dialogue.
pub mod Turn
pub mod Fsm
pub mod BargeIn
pub mod SentenceSplitter
pub mod TurnWriter
pub mod Manager
pub mod TtsBridge
