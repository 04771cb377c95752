-- ===== src/Replication/Tracker.antt =====
-- `ReplicationTracker` of backend/replication.py: the role and the epoch of a node, the sequence of
-- its exports, and the place that it has reached in another node's. Integers are Python's, of either
-- sign. `make_envelope` is in Replication/Envelope; here an export is the triple that it is given.
use stageforge.Prelude.{
  ℕ, ◌+◌, ◌-◌, ◌/◌, ◌==◌, not, String, str_eq, Bool, true, false, ◌&&◌, if◌then◌else◌, Option, none,
  some,
}
use stageforge.Prelude.Int.{ℤ, pos, ltb_ℤ, leb_ℤ, eqb_ℤ, succ_ℤ, max_ℤ}
use stageforge.Prelude.Text.{strip, lower_is, clip, is_set}

pub data Role : Type 0 where
  primary standby : Role

-- `last_applied_at` is the reading of the clock in nanoseconds; 0 means never.
pub record Tracker : Type 0 where
  pub node_id : String
  pub role : Role
  pub epoch : ℤ
  pub export_sequence : ℕ
  pub source_node_id : String
  pub applied_epoch : ℤ
  pub applied_sequence : ℤ
  pub applied_revision : ℤ
  pub last_applied_at : ℕ

-- A role's text, trimmed and in lower case; `none` is one that is not known.
unfoldable pub parse_role : String → Option Role
parse_role text =
    if lower_is (strip text) "primary"
    then some primary
    else if lower_is (strip text) "standby"
    then some standby
    else none

-- `__init__`
unfoldable pub new_tracker : String → String → Tracker
new_tracker node role =
    let id = clip 64 (strip node) in
    record {
      node_id = if is_set id then id else "node-local";
      role = elim (parse_role role) [ none ↦ primary | some r ↦ r ];
      epoch = pos 1;
      export_sequence = 0;
      source_node_id = "";
      applied_epoch = pos 0;
      applied_sequence = pos 0;
      applied_revision = pos 0;
      last_applied_at = 0;
    }

abbrev pub same_role : Role → Role → Bool
same_role primary primary = true
same_role standby standby = true
same_role _ _ = false

unfoldable pub become : Role → Tracker → Tracker
become r t =
    if same_role r t.role
    then t
    else record t { epoch = succ_ℤ t.epoch; role = r; export_sequence = 0 }

-- `set_role`; `none` is the `ValueError`
unfoldable pub set_role : String → Tracker → Option Tracker
unfolding become
set_role text t = elim (parse_role text) [ none ↦ none | some r ↦ some (become r t) ]

unfoldable pub promote_with_epoch : ℤ → Tracker → Tracker
promote_with_epoch e t = record t {
  role = primary;
  epoch = max_ℤ (succ_ℤ t.epoch) (max_ℤ (pos 1) e);
  export_sequence = 0;
}

unfoldable pub adopt_epoch : ℤ → Tracker → Tracker
adopt_epoch e t =
    if ltb_ℤ t.epoch (max_ℤ (pos 1) e)
    then record t { epoch = max_ℤ (pos 1) e; export_sequence = 0 }
    else t

-- The place of one export among a node's exports.
pub record Stamp : Type 0 where
  pub node : String
  pub epoch : ℤ
  pub sequence : ℕ

-- `export`; `none` is the `RuntimeError` of a node that is not primary
unfoldable pub export : Tracker → Option (Stamp × Tracker)
export t =
    if same_role t.role primary
    then some (
      record { node = t.node_id; epoch = t.epoch; sequence = t.export_sequence + 1 },
      record t { export_sequence = t.export_sequence + 1 },
    )
    else none

-- The ordering facts of an envelope; a field is `none` where it is missing or cannot be read.
pub record Header : Type 0 where
  pub source : Option String
  pub epoch : Option ℤ
  pub sequence : Option ℤ
  pub revision : Option ℤ

pub data Decision : Type 0 where
  accepted : Decision
  not_standby malformed stale_epoch stale_sequence revision_backwards : Decision

-- The facts once they are read.
pub record Position : Type 0 where
  pub source : String
  pub epoch : ℤ
  pub sequence : ℤ
  pub revision : ℤ

unfoldable pub read_header : Header → Option Position
read_header h = elim h.epoch [
  | none ↦ none
  | some e ↦ elim h.sequence [
    | none ↦ none
    | some s ↦ elim h.revision [
      | none ↦ none
      | some r ↦ elim h.source [
        | none ↦ none
        | some n ↦ some (record { source = n; epoch = e; sequence = s; revision = r })
      ]
    ]
  ]
]

-- The tests of `can_apply` on facts that could be read.
unfoldable pub can_follow : Tracker → Position → Decision
can_follow t p =
    if ltb_ℤ p.epoch t.applied_epoch
    then stale_epoch
    else if eqb_ℤ p.epoch t.applied_epoch
        && (str_eq p.source t.source_node_id && leb_ℤ p.sequence t.applied_sequence)
    then stale_sequence
    else if eqb_ℤ p.epoch t.applied_epoch
        && (not (eqb_ℤ t.applied_revision (pos 0)) && ltb_ℤ p.revision t.applied_revision)
    then revision_backwards
    else accepted

unfoldable pub can_apply : Tracker → Header → Decision
unfolding can_follow read_header
can_apply t h =
    if not (same_role t.role standby)
    then not_standby
    else elim (read_header h) [ none ↦ malformed | some p ↦ can_follow t p ]

-- `mark_applied`, of an envelope that `can_apply` has read
unfoldable pub mark_applied : ℕ → Position → Tracker → Tracker
mark_applied now p t = record t {
  source_node_id = p.source;
  applied_epoch = p.epoch;
  applied_sequence = p.sequence;
  applied_revision = p.revision;
  epoch = max_ℤ t.epoch p.epoch;
  last_applied_at = now;
}

-- `replicaAgeMs` of `status`, over a clock in nanoseconds
unfoldable pub replica_age_ms : ℕ → Tracker → Option ℕ
replica_age_ms now t =
    if t.last_applied_at == 0 then none else some ((now - t.last_applied_at) / 1000000)
