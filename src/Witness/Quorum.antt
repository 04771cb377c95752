-- ===== src/Witness/Quorum.antt =====
-- `WitnessQuorumClient` of backend/witness.py: how a node turns the answers of its witnesses into a
-- cached lease, and gives it up before it hands its authority over. Sending a request is not modelled
-- here: a round is the list of results, one for each configured witness. Clock readings are
-- arguments. Epochs and expiries of a result are naturals: `_parse_result` lets no others through.
pub mod Selection
pub mod Answers
use stageforge.Prelude.{
  ℕ, zero, suc, ◌+◌, ◌-◌, ◌/◌, ◌≤◌, ◌<◌, ◌≡◌, refl, min, max, ◌==◌, leb, ltb, String, str_eq, Bool,
  true, false, not, ◌&&◌, ◌||◌, Option, none, some, if◌then◌else◌, List, [], ◌∷◌, length, take,
  filter,
}
use stageforge.Prelude.Int.{ℤ, pos, negsuc, eqb_ℤ}
use stageforge.Witness.Store.{Reply}

pub record WitnessResult : Type 0 where
  pub url : String
  pub granted : Bool
  pub epoch : ℕ
  pub expires : ℕ
  pub holder : Option String
  pub witness_id : Option String
  pub failure_domain : Option String
  pub server_ms : ℕ
  pub clock_skew : Option ℕ

abbrev pub same_text : Option String → Option String → Bool
same_text none none = true
same_text (some s) (some t) = str_eq s t
same_text _ _ = false

-- `abs(a - b)`
abbrev pub distance : ℕ → ℕ → ℕ
distance a b = (a - b) + (b - a)

-- What a topology declares of one endpoint, with the bound on clock skew.
pub record Endpoint : Type 0 where
  pub witness_id : String
  pub failure_domain : String
  pub max_skew : ℕ

-- A field that names a witness or a failure domain: missing, a text, or another value, given as `str`
-- makes it
pub data IdField : Type 0 where
  no_id : IdField
  text_id other_id : String → IdField

abbrev pub shown : IdField → Option String
shown no_id = none
shown (text_id s) = some s
shown (other_id s) = some s

abbrev pub is_id : IdField → String → Bool
is_id no_id s = false
is_id (text_id t) s = str_eq t s
is_id (other_id t) s = false

-- The parts of a response that identify its witness; `server_ms` is `none` where the response has no
-- integer there.
pub record Identity : Type 0 where
  pub witness_id : IdField
  pub failure_domain : IdField
  pub server_ms : Option ℤ

-- The other fields of a response, which may hold anything: each is `none` where it is missing or has
-- another type.
pub record Response : Type 0 where
  pub granted : Option Bool
  pub cluster : Option String
  pub holder : Option String
  pub epoch : Option ℤ
  pub expires : Option ℤ
  pub transaction : Option ℤ

-- The answer of the witness to a request for a lease, as its client reads it
abbrev pub answer_of : Reply → Response
answer_of r = record {
  granted = some r.is_granted;
  cluster = some r.cluster;
  holder = some r.holder;
  epoch = some (pos r.epoch);
  expires = some (pos r.expires);
  transaction = none;
}

-- `type(x) is int and x > 0`, and the number
unfoldable pub positive : Option ℤ → Option ℕ
positive none = none
positive (some (negsuc n)) = none
positive (some (pos n)) = if n == 0 then none else some n

-- `_response_identity`; `none` is a `ValueError`. The endpoint is given in independent mode.
unfoldable pub response_identity : Option Endpoint → Identity → ℕ → Option (ℕ × Option ℕ)
unfolding positive
response_identity none i now = elim (positive i.server_ms) [
  | none ↦ some (0, none)
  | some m ↦ some (m, some (distance m now))
]
response_identity (some e) i now = elim (positive i.server_ms) [
  | none ↦ none
  | some m ↦
      if not (is_id i.witness_id e.witness_id) || not (is_id i.failure_domain e.failure_domain)
      then none
      else if ltb e.max_skew (distance m now)
      then none
      else some (m, some (distance m now))
]

-- A result that is no grant: an error, or a denial by the witness.
abbrev pub no_grant : String → WitnessResult
no_grant url = record {
  url = url;
  granted = false;
  epoch = 0;
  expires = 0;
  holder = none;
  witness_id = none;
  failure_domain = none;
  server_ms = 0;
  clock_skew = none;
}

-- The transaction that is asked for, if there is one, is the response's.
abbrev pub same_transaction : Option ℤ → Option ℤ → Bool
same_transaction none u = true
same_transaction (some t) none = false
same_transaction (some t) (some u) = eqb_ℤ u t

-- The tests of `_parse_result` past the identity; `granted` is the response's.
unfoldable pub parse_grant :
    String → String → Option ℤ → Response → Bool → Identity → ℕ × Option ℕ → WitnessResult
unfolding positive
parse_grant url holder transaction raw granted i (server, skew) =
    if not granted
    then record (no_grant url) {
      witness_id = shown i.witness_id;
      failure_domain = shown i.failure_domain;
      server_ms = server;
      clock_skew = skew;
    }
    else if not (same_text raw.holder (some holder))
    then no_grant url
    else elim (positive raw.epoch) [
      | none ↦ no_grant url
      | some epoch ↦ elim (positive raw.expires) [
        | none ↦ no_grant url
        | some expires ↦
            if not (same_transaction transaction raw.transaction) then no_grant url else record {
              url = url;
              granted = true;
              epoch = epoch;
              expires = expires;
              holder = some holder;
              witness_id = shown i.witness_id;
              failure_domain = shown i.failure_domain;
              server_ms = server;
              clock_skew = skew;
            }
      ]
    ]

-- `_parse_result`, and the handlers of its callers, which turn its errors into a result without a
-- grant
unfoldable pub parse_result :
    String → String → String → Option ℤ → Option Endpoint → Response → Identity → ℕ → WitnessResult
unfolding parse_grant response_identity
parse_result url cluster holder transaction endpoint raw i now = elim raw.granted [
  | none ↦ no_grant url
  | some granted ↦
      if not (same_text raw.cluster (some cluster))
      then no_grant url
      else elim (response_identity endpoint i now) [
        | none ↦ no_grant url
        | some clock ↦ parse_grant url holder transaction raw granted i clock
      ]
]

pub record Client : Type 0 where
  pub urls : List String
  -- the quorum of an independent topology, if there is one
  pub independent_quorum : Option ℕ
  pub authenticated : Bool
  pub cluster_id : String
  pub node_id : String
  pub ttl_ms : ℕ
  pub last_results : List WitnessResult
  pub lease_epoch : ℕ
  pub lease_expires : ℕ
  pub last_attempt : ℕ
  pub suspended : Bool
  -- whether a fence path is configured, and whether the fence file is there
  pub fence_configured : Bool
  pub fence_present : Bool

-- `quorum_size`
unfoldable pub quorum_of : Option ℕ → ℕ → ℕ
quorum_of (some q) n = q
quorum_of none n = if n == 0 then 0 else n / 2 + 1

unfoldable pub quorum_size : Client → ℕ
unfolding quorum_of
quorum_size c = quorum_of c.independent_quorum (length c.urls)

-- `sorted(grants, key=lambda r: r.expires_at_unix_ms, reverse=True)`, which is stable
unfoldable pub insert_longest : WitnessResult → List WitnessResult → List WitnessResult
insert_longest r [] = r ∷ []
insert_longest r (x ∷ xs) = if leb x.expires r.expires then r ∷ x ∷ xs else x ∷ insert_longest r xs

unfoldable pub sort_longest : List WitnessResult → List WitnessResult
unfolding insert_longest
sort_longest [] = []
sort_longest (r ∷ rs) = insert_longest r (sort_longest rs)

-- `min` over a list that is not empty, given by its head and tail
unfoldable pub least_expiry : ℕ → List WitnessResult → ℕ
least_expiry m [] = m
least_expiry m (r ∷ rs) = least_expiry (min m r.expires) rs

unfoldable pub greatest_epoch : ℕ → List WitnessResult → ℕ
greatest_epoch m [] = m
greatest_epoch m (r ∷ rs) = greatest_epoch (max m r.epoch) rs

abbrev held_by : String → Option String → Bool
held_by node none = false
held_by node (some h) = str_eq h node

-- A result that counts in `_acquire_locked`: granted to this node and unexpired.
abbrev pub counts : String → ℕ → WitnessResult → Bool
counts node now r = r.granted && (held_by node r.holder && ltb now r.expires)

-- The expiry and the epoch over the selected grants.
unfoldable pub summarize : List WitnessResult → Option (ℕ × ℕ)
unfolding least_expiry greatest_epoch
summarize [] = none
summarize (r ∷ rs) = some (least_expiry r.expires rs, greatest_epoch r.epoch rs)

-- The lease that a round of results gives: its expiry and its epoch, or none without a quorum.
unfoldable pub quorum_lease : String → ℕ → ℕ → List WitnessResult → Option (ℕ × ℕ)
unfolding summarize sort_longest
quorum_lease node quorum now results =
    let grants = filter (counts node now) results in
    if leb quorum (length grants) && ltb 0 quorum
    then summarize (take quorum (sort_longest grants))
    else none

-- The end of `_acquire_locked`, over the results of the round
unfoldable pub conclude : ℕ → List WitnessResult → Client → Client
conclude now results c = elim (quorum_lease c.node_id (quorum_size c) now results) [
  | none ↦ record c { last_results = results; last_attempt = now }
  | some (expires, epoch) ↦ record c {
    last_results = results;
    last_attempt = now;
    lease_expires = expires;
    lease_epoch = max c.lease_epoch epoch;
  }
]

-- `acquire`: a suspended client asks nobody.
unfoldable pub acquire_quorum : ℕ → List WitnessResult → Client → Client
unfolding conclude
acquire_quorum now results c = if c.suspended then c else conclude now results c

-- What `transfer` does before it sends anything. `none` is the `RuntimeError` of a fence that is
-- there already; the suspension stays in force then, too.
unfoldable pub suspend : Client → Client
suspend c = record c { suspended = true; lease_expires = 0 }

unfoldable pub persist_transfer_fence : Client → Option Client
persist_transfer_fence c =
    if not c.fence_configured
    then some c
    else if c.fence_present
    then none
    else some (record c { fence_present = true })

-- A result that counts in `transfer`
abbrev pub counts_transfer : String → ℕ → ℕ → WitnessResult → Bool
counts_transfer target epoch now r =
    r.granted && (held_by target r.holder && (r.epoch == epoch && ltb now r.expires))

-- The rest of `transfer`: whether a quorum has granted it.
unfoldable pub conclude_transfer : String → ℕ → ℕ → List WitnessResult → Client → Bool × Client
conclude_transfer target epoch now results c =
    let grants = length (filter (counts_transfer target epoch now) results) in
    (
      leb (quorum_size c) grants && ltb 0 (quorum_size c),
      record c { last_results = results; last_attempt = now },
    )

unfoldable pub transfer_quorum : String → ℕ → ℕ → List WitnessResult → Client → Option Bool × Client
unfolding suspend persist_transfer_fence conclude_transfer
transfer_quorum target epoch now results c = elim (persist_transfer_fence (suspend c)) [
  | none ↦ (none, suspend c)
  | some c' ↦ let (done, c'') = conclude_transfer target epoch now results c' in (some done, c'')
]

-- `configured`: `authenticated` says that a secret or every keyring is there.
unfoldable pub is_configured : Client → Bool
is_configured c = not (length c.urls == 0) && c.authenticated

-- `valid`; a negative safety margin counts as 0.
unfoldable pub valid : ℕ → ℕ → Client → Bool
valid margin now c = is_configured c && (not c.suspended && ltb (now + margin) c.lease_expires)

-- `leaseValid` of `status`
unfoldable pub lease_valid : ℕ → Client → Bool
lease_valid now c = not c.suspended && ltb now c.lease_expires
