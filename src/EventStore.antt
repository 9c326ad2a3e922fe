-- ===== src/EventStore.antt =====
-- Component_1/event_store.py: the hash chain, the projections, and the append that writes both.
pub mod Tables
pub mod Handlers
pub mod Append
pub mod Stream
pub mod Replay
