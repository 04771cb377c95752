-- ===== src/Handoff.antt =====
-- Planned handoffs (backend/planned_handoff.py): a source offers its authority to a target under the
-- facts of one transaction, and the target answers with a receipt. Offers and Receipts are the models
-- with their theorems, Agreement is about the two together.
pub mod Offers
pub mod Receipts
pub mod Agreement
mod Tests
