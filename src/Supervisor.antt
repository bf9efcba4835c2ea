-- ===== src/Supervisor.antt =====
-- The supervision of the model servers: src/supervisor.
pub mod Service
pub mod Pipeline
