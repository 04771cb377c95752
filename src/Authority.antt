-- ===== src/Authority.antt =====
-- Authority leases over operational scopes (backend/authority_leases.py): Leases is the model, Exclusion
-- compares leases of one scope, History follows the registry over time, Answers and Resolution are about
-- whom it names for a resource.
pub mod Leases
pub mod Exclusion
pub mod History
pub mod Answers
pub mod Resolution
mod Tests
