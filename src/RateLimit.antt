-- ===== src/RateLimit.antt =====
-- rate_limit.py: the counters in Redis, the local counters for when Redis is down, the identifier
-- of a client, the two layers for Tor, and the slots of WebSocket connections.
pub mod Identifier
pub mod Check
pub mod Slots
pub mod Depends
