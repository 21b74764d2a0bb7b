-- ===== src/Queue.antt =====
-- queue.py: the inbox queue of each recipient. The operations stand in the modules that are named
-- for them, the theorems in the modules below those.
pub mod Model
pub mod Scripts
pub mod Enqueue
pub mod Fanout
pub mod Inbox
pub mod Ack
pub mod Delete
pub mod Depth
pub mod Lifecycle
