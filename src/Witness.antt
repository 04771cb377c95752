-- ===== src/Witness.antt =====
-- The witness service of backend/witness.py: the persistent lease authority and its quorum client.
pub mod Store
pub mod Fencing
pub mod Handover
pub mod Quorum
pub mod Cluster
mod Tests
