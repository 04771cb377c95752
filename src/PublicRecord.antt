-- ===== src/PublicRecord.antt =====
-- The public record (backend/public_record.py): a chain of signed records, each with the digest of the one
-- before, and a second chain of the witnesses' attestations. Chain has the records, Attesting the
-- attestations, Auditing `verify`, Growth what `append` keeps,
-- Soundness what `verify` accepts, Replays what `attest` does again,
-- Continuity, Operations and Audits that both keep an audit good.
pub mod Chain
pub mod Attesting
pub mod Auditing
pub mod Growth
pub mod Soundness
pub mod Replays
pub mod Continuity
pub mod Operations
pub mod Audits
mod Tests
