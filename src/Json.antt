-- ===== src/Json.antt =====
-- c/json.c: a parser that returns views of its input, and queries that scan a view again.
pub mod Value
pub mod Decode
pub mod Parse
pub mod Quoted
pub mod Query
pub mod Printed
pub mod Numbers
