-- ===== src/Sandbox.antt =====
-- The sandbox host: src/app/sandbox.
pub mod Path
pub mod Pool
