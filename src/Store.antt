-- ===== src/Store.antt =====
-- c/store.c: the files of a session.
pub mod Conversation
pub mod Stats
