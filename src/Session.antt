-- ===== src/Session.antt =====
-- The authenticated session channel (backend/session_channel.py): Channel is its model, Packing is
-- about a frame's prefix, Framing the way of a frame from a sender to a receiver, Acceptance what a
-- receiver demands of a frame, Ordering what it accepts over time, Checkpoints how a channel is taken
-- up again.
pub mod Channel
pub mod Packing
pub mod Framing
pub mod Acceptance
pub mod Ordering
pub mod Checkpoints
mod Tests
