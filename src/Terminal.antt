-- ===== src/Terminal.antt =====
-- The terminal, frontend/src/features/terminal.
pub mod Types
pub mod Client
pub mod Session
