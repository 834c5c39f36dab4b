-- ===== src/Transport.antt =====
-- c/transport.c: one child for each part of it.
pub mod Events
pub mod Claude
pub mod Lines
