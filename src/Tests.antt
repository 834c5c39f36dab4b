-- ===== src/Tests.antt =====
-- Runs of the modelled code on concrete inputs.
mod Json
mod Store
mod Util
mod Tools
mod Transport
mod Queue
mod Agent
mod Compact
mod Turns
