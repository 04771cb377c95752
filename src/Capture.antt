-- ===== src/Capture.antt =====
-- The punch capture gate (backend/punch_capture.py): Gate is its model, Slicing is about the slices it
-- cuts, Selection about what it keeps and counts.
pub mod Gate
pub mod Slicing
pub mod Selection
mod Tests
