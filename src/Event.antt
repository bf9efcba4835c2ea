-- ===== src/Event.antt =====
-- The event bus: src/event.
pub mod Types
pub mod BoundedQueue
pub mod Bus
