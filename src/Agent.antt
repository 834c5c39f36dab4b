-- ===== src/Agent.antt =====
-- c/agent.c: what the agent records, shows and replays, and how it runs its turns.
pub mod Events
pub mod Summary
pub mod Replay
pub mod Stream
pub mod Results
pub mod UserLines
pub mod Compact
pub mod Instruction
pub mod Context
pub mod Goal
pub mod Turns
