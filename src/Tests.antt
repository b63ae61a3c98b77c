-- ===== src/Tests.antt =====
-- Witnesses: the theorems at concrete inputs.
mod Fixtures
mod Storage
mod Calls
mod Workers
mod Replay
mod Components
mod Blocks
mod Stakers
mod Crypto
