-- ===== src/Witness/Store.antt =====
-- `WitnessLeaseStore` of backend/witness.py. A lease dictionary that misses a key reads as its
-- default ("" or 0), so a missing lease and an empty one are the record `absent`. The clock, which
-- the source reads by `time()`, is the argument `now`. Numbers are the naturals: the methods write
-- no negative one, and a negative time to live is clamped to 500 as 0 is.
use stageforge.Prelude.{
  [], ℕ, ◌+◌, min, max, ◌==◌, leb, ltb, String, str_eq, Bool, true, false, not, ◌&&◌, ◌||◌, Option,
  none, some, if◌then◌else◌,
}
use stageforge.Prelude.Dict.{Dict, lookup, insert}
use stageforge.Prelude.Text.{is_set}

pub record Lease : Type 0 where
  pub holder : String
  pub epoch : ℕ
  pub expires : ℕ
  pub last_transaction : ℕ
  pub last_source : String

-- What `self._leases.get(cluster_id) or {}` reads as where there is none.
abbrev pub absent : Lease
absent = record { holder = ""; epoch = 0; expires = 0; last_transaction = 0; last_source = "" }

-- `durable` is whether a path is configured, `disk` the file's content (`none`: no file, or one that
-- cannot be read).
pub record LeaseStore : Type 0 where
  pub durable : Bool
  pub leases : Dict Lease
  pub disk : Option (Dict Lease)

unfoldable pub find_lease : String → Dict Lease → Lease
find_lease c d = elim (lookup c d) [ none ↦ absent | some l ↦ l ]

-- `_load`, on a process that starts over the same file
unfoldable pub load : Bool → Option (Dict Lease) → LeaseStore
load false disk = record { durable = false; leases = []; disk = disk }
load true none = record { durable = true; leases = []; disk = none }
load true (some d) = record { durable = true; leases = d; disk = some d }

-- `self._leases[cluster_id] = lease; self._save()`
unfoldable pub put_lease : String → Lease → LeaseStore → LeaseStore
put_lease c l s =
    let d = insert c l s.leases in
    record s { leases = d; disk = if s.durable then some d else s.disk }

pub data Reason : Type 0 where
  held_by_other granted already_transferred fencing_mismatch epoch_not_next transferred : Reason

-- The JSON object that `acquire` and `transfer` return. Where the source returns `None` for an empty
-- holder or a zero expiry, the field holds that empty value.
pub record Reply : Type 0 where
  pub is_granted : Bool
  pub idempotent : Bool
  pub cluster : String
  pub holder : String
  pub epoch : ℕ
  pub expires : ℕ
  pub server_ms : ℕ
  pub reason : Reason

-- `max(500, min(int(ttl_ms), 60000))`
unfoldable pub clamp_ttl : ℕ → ℕ
clamp_ttl ttl = max 500 (min ttl 60000)

-- The branches of `acquire` over the lease that is found.
unfoldable pub acquire_lease : String → String → ℕ → ℕ → Lease → LeaseStore → Reply × LeaseStore
unfolding is_set
acquire_lease cluster node ttl now lease s =
    let epoch = if str_eq lease.holder node then lease.epoch else lease.epoch + 1 in
    if is_set lease.holder && not (str_eq lease.holder node) && ltb now lease.expires
    then (
      record {
        is_granted = false;
        idempotent = false;
        cluster = cluster;
        holder = lease.holder;
        epoch = lease.epoch;
        expires = lease.expires;
        server_ms = now;
        reason = held_by_other;
      },
      s,
    )
    else (
      record {
        is_granted = true;
        idempotent = false;
        cluster = cluster;
        holder = node;
        epoch = max 1 epoch;
        expires = now + clamp_ttl ttl;
        server_ms = now;
        reason = granted;
      },
      put_lease cluster
          (record {
            holder = node;
            epoch = max 1 epoch;
            expires = now + clamp_ttl ttl;
            last_transaction = 0;
            last_source = "";
          })
          s,
    )

unfoldable pub acquire : String → String → ℕ → ℕ → LeaseStore → Reply × LeaseStore
unfolding acquire_lease
acquire cluster node ttl now s = acquire_lease cluster node ttl now (find_lease cluster s.leases) s

-- The facts of one transfer, as `transfer` takes them.
pub record Transfer : Type 0 where
  pub cluster : String
  pub source : String
  pub target : String
  pub source_epoch : ℕ
  pub target_epoch : ℕ
  pub transaction : ℕ
  pub ttl : ℕ

-- `replay`: the same transfer has been made, and is the last thing that happened to the lease.
unfoldable pub is_replay : Transfer → Lease → Bool
is_replay t lease =
    lease.last_transaction == t.transaction
    && (str_eq lease.last_source t.source
        && (str_eq lease.holder t.target && lease.epoch == t.target_epoch))

unfoldable pub fence_mismatch : Transfer → ℕ → Lease → Bool
fence_mismatch t now lease =
    not (str_eq lease.holder t.source)
    || (not (lease.epoch == t.source_epoch) || leb lease.expires now)

-- A reply that changes nothing and reports the lease as it stands.
abbrev report : Transfer → ℕ → Lease → Bool → Reason → Reply
report t now lease g r = record {
  is_granted = g;
  idempotent = g;
  cluster = t.cluster;
  holder = lease.holder;
  epoch = lease.epoch;
  expires = lease.expires;
  server_ms = now;
  reason = r;
}

abbrev moved : Transfer → ℕ → Lease
moved t now = record {
  holder = t.target;
  epoch = t.target_epoch;
  expires = now + clamp_ttl t.ttl;
  last_transaction = t.transaction;
  last_source = t.source;
}

unfoldable pub transfer_lease : Transfer → ℕ → Lease → LeaseStore → Reply × LeaseStore
unfolding is_replay fence_mismatch
transfer_lease t now lease s =
    if is_replay t lease
    then (report t now lease true already_transferred, s)
    else if fence_mismatch t now lease
    then (report t now lease false fencing_mismatch, s)
    else if not (t.target_epoch == t.source_epoch + 1)
    then (report t now lease false epoch_not_next, s)
    else (
      record {
        is_granted = true;
        idempotent = false;
        cluster = t.cluster;
        holder = t.target;
        epoch = t.target_epoch;
        expires = now + clamp_ttl t.ttl;
        server_ms = now;
        reason = transferred;
      },
      put_lease t.cluster (moved t now) s,
    )

unfoldable pub transfer : Transfer → ℕ → LeaseStore → Reply × LeaseStore
unfolding transfer_lease
transfer t now s = transfer_lease t now (find_lease t.cluster s.leases) s

pub record Status : Type 0 where
  pub holder : String
  pub epoch : ℕ
  pub expires : ℕ
  pub expired : Bool

unfoldable pub status : String → ℕ → LeaseStore → Status
unfolding is_set
status cluster now s =
    let lease = find_lease cluster s.leases in
    record {
      holder = lease.holder;
      epoch = lease.epoch;
      expires = lease.expires;
      expired = not (is_set lease.holder) || leb lease.expires now;
    }

-- `authorize_recovery`: the answer to a fenced node that asks to come back as a standby.
unfoldable pub authorize_recovery : String → String → String → ℕ → ℕ → ℕ → LeaseStore → Bool
authorize_recovery cluster node target source_epoch target_epoch transaction s =
    let lease = find_lease cluster s.leases in
    not (str_eq node target)
    && (str_eq lease.holder target
        && (lease.epoch == target_epoch
            && (lease.last_transaction == transaction
                && (str_eq lease.last_source node && target_epoch == source_epoch + 1))))
