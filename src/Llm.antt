-- ===== src/Llm.antt =====
-- The client of the language model: src/llm.
pub mod SseParser
pub mod Client
