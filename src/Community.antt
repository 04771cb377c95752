-- ===== src/Community.antt =====
-- Community governance (backend/community_governance.py): members vote by invitation on proposals, which
-- are adopted when enough of them agree. Records has the data, Tally the count of the votes, Ballots
-- the invitations, Casting the votes, Proposals the making of proposals, Editing `update_proposal`,
-- Accounts the members, the policy and the adopted changes, Publishing the public record of all of
-- them, History the operations over time. Keys is about the identifiers of votes, Permanence about
-- what is never changed, Adoption and Ratification about the tally that an adoption needs, Published
-- about the public record.
pub mod Records
pub mod Tally
pub mod Ballots
pub mod Casting
pub mod Proposals
pub mod Editing
pub mod Accounts
pub mod Publishing
pub mod Published
pub mod History
pub mod Keys
pub mod Permanence
pub mod Adoption
pub mod Ratification
mod Tests
