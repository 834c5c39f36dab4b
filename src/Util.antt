-- ===== src/Util.antt =====
-- c/util.c: one child for each family of its functions.
pub mod Escape
pub mod Utf8
pub mod Base64
pub mod Buffer
pub mod Paths
pub mod Decimal
pub mod FileSystem
pub mod Printable
