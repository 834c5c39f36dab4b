-- ===== src/Tools.antt =====
-- c/tools.c: one child for each part of it.
pub mod Policy
pub mod Format
pub mod Files
pub mod Commands
