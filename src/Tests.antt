-- ===== src/Tests.antt =====
-- The theorems at concrete inputs.
mod Fixtures
mod Queues
mod Access
mod Auth
mod Users
mod Tokens
mod Dms
mod Reaper
mod Federation
mod Messages
