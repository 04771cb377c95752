-- ===== src/Replication.antt =====
-- Replication of the show state between nodes: backend/replication.py.
pub mod Tracker
pub mod Ordering
pub mod Receiver
pub mod Replays
pub mod Applying
pub mod Envelope
pub mod Authenticity
mod Tests
