-- ===== src/Lib.antt =====
-- A model of StageForge's cluster coordination, of its community governance with the public
-- record, and of its capture gate, with what makes them correct.
--
-- The program. Nodes of one show agree on a primary through leases. Each independent witness
-- (backend/witness.py, class WitnessLeaseStore, behind backend/witness_server.py) grants the lease
-- of a cluster to one node at a time, under an epoch that fences earlier holders. A node's client
-- (backend/witness.py, class WitnessQuorumClient) asks all witnesses and holds a lease for as long
-- as a quorum of grants lasts. The primary exports its state in envelopes, and a standby applies
-- them in order (backend/replication.py, called from backend/runtime.py), authenticated under the
-- secrets of backend/cluster_secrets.py. A planned handoff (backend/planned_handoff.py) fixes the
-- facts of one transfer on both nodes. Within one node, leases on scopes
-- (backend/authority_leases.py) say who may operate what. A session channel
-- (backend/session_channel.py) frames and authenticates messages between two ends. The capture
-- gate (backend/punch_capture.py) selects the frames of a recording. The community's members vote
-- on proposals, whose adopted changes are applied (backend/community_governance.py); versions,
-- invitations and ballots go on a public record (backend/public_record.py), a chain of signed
-- records that witnesses attest. Plans of dispatch times and of delays (backend/timing.py,
-- backend/plugin_latency.py) account for latencies; a plan of shedding
-- (backend/overload_policy.py) says which effects to bypass under overload.
--
-- The files.
--   Prelude         texts, integers, lists, dictionaries and Boolean tests that the parts share
--   Witness/Store   WitnessLeaseStore: `acquire`, `transfer`, `status`, `authorize_recovery`, `load`
--   Witness/Fencing the routes of the server that change the store (`handle`), and what they keep
--   Witness/Handover transfers, repetitions, recovery, and a restart over the file
--   Witness/Quorum  WitnessQuorumClient: `parse_result`, `acquire_quorum`, `transfer_quorum`, `valid`;
--                   Selection is about the lease of a round, Answers about one response
--   Witness/Cluster any number of witnesses and clients that exchange requests in any order, as a step
--                   relation; Count, Holding, Backing and Exclusion are about who holds leases in it
--   Secrets         HmacKeySnapshot and the acceptance of a key ring document
--   Session         Channel (AuthenticatedSessionChannel of backend/session_channel.py), Acceptance and
--                   Ordering (its receiving end), Packing and Framing (a frame's bytes), Checkpoints
--   Handoff         Offers and Receipts of backend/planned_handoff.py, Agreement of the two nodes
--   Authority       Leases (AuthorityLeaseRegistry of backend/authority_leases.py), Exclusion and History
--                   (who holds a scope over time), Answers and Resolution (whom it names)
--   Community       CommunityGovernance: Records (the data), Tally (`proposal_tally`), Ballots and Casting
--                   (invitations and votes), Proposals, Editing (`update_proposal`), Accounts, Publishing
--                   (`reconcile_public_record`), History (the operations as events); Keys, Permanence,
--                   Adoption, Ratification and Published are about them
--   PublicRecord    PublicRecordStore: Chain (`append`, the first half of `verify`), Attesting (`attest`),
--                   Auditing (`verify`); Growth, Soundness, Replays, Continuity, Operations and Audits
--                   are about them
--   Overload        Shedding (`overload_shedding_plan` of backend/overload_policy.py) and Safety
--   Timing          Dispatch (backend/timing.py) and Alignment (backend/plugin_latency.py) of latencies
--   Replication     Tracker (ReplicationTracker), Ordering (exports), Receiver (`apply_replica` of
--                   backend/runtime.py, as far as it changes the tracker), Replays and Applying (imports),
--                   Envelope (`make_envelope`, `verify_envelope`), Authenticity (what an accepted one shows)
--   Capture         Gate (PunchCaptureGate), Slicing (its loop), Selection (what it keeps and counts)
--
-- Conventions. A lock's critical section is one step. The clock is an argument. In the cluster of
-- witnesses and clients every request and every answer has a reading of its own, since the clocks of
-- the hosts differ and the witness reads its clock before it takes the lock; how far the readings may
-- be off, and that a witness serves one node's requests in the order of their readings, which the
-- code does not ensure, are hypotheses. The application of an envelope is two steps, its check and its
-- mark, and applications may overlap; that they do not is a hypothesis where it is needed. Errors are `none`
-- or a constructor of a result type. Counters that the code keeps at 0 or above are naturals;
-- numbers that come from outside are integers. The loop of the gate runs on fuel, one round for
-- each frame of the window, which is enough since every slice has a frame. SHA-256, HMAC and the
-- JSON encoding are operations that the functions over envelopes, channels and records take; so is
-- the floating-point arithmetic of the tally. Random identifiers, and what the mailer or the
-- public record answers to the governance, are arguments. A method that changes an object and then
-- raises leaves the changed state beside its error. `issue_vote_emails` is one step that prepares
-- the invitations and one for the sending of each. A frame's bytes are numbers below 256, and its
-- integers big-endian of the widths that the source packs.
--
-- Not modelled: sockets and HTTP, files but for the witness's lease file and the public record's
-- lines, the views of the governance (snapshot, vote_context, monitor), references to public
-- records, the native engine, the development server, the frontend, and the other components of
-- the backend.
pub mod Prelude
pub mod Capture
pub mod Secrets
pub mod Session
pub mod Handoff
pub mod Authority
pub mod Community
pub mod PublicRecord
pub mod Overload
pub mod Timing
pub mod Replication
pub mod Witness
