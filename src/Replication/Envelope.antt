-- ===== src/Replication/Envelope.antt =====
-- `make_envelope` and `verify_envelope` of backend/replication.py. The canonical digest and the HMAC
-- come from Python's hashlib and hmac and are parameters, as are the show snapshot and the execution
-- telemetry, which are passed through. Every field of an envelope that is read is an `Option`: `none`
-- is a missing key, or a value that `int` or `str` refuses.
use stageforge.Prelude.{
  ◌≡◌, ◌||◌, not, String, str_eq, str_eq_refl, Bool, true, ◌&&◌, if◌then◌else◌, arith, Option, none,
  some,
}
use stageforge.Prelude.Int.{ℤ, pos, negsuc, eqb_ℤ, leb_ℤ}
use stageforge.Prelude.Text.{is_set}
use stageforge.Secrets.{Keys, Auth, AuthError, secret, refused, configured, resolve}

-- What an envelope's `snapshot` holds.
pub data Content {ℓ} (A : Type ℓ) : Type ℓ where
  missing : Content A
  no_object : Content A
  object : A → Content A

-- The signed part of an envelope.
pub record Payload (Snapshot Telemetry : Type 0) : Type 0 where
  pub version : ℤ
  pub source : String
  pub epoch : ℤ
  pub sequence : ℤ
  pub revision : ℤ
  pub snapshot : Snapshot
  pub telemetry : Option Telemetry
  pub key_id : Option String

-- An envelope as it arrives. `telemetry` is `missing` where the key is absent.
pub record Envelope (Snapshot Telemetry : Type 0) : Type 0 where
  pub version : Option ℤ
  pub source : Option String
  pub epoch : Option ℤ
  pub sequence : Option ℤ
  pub revision : Option ℤ
  pub snapshot : Content Snapshot
  pub telemetry : Content Telemetry
  pub key_id : Option String
  pub digest : String
  pub hmac : String

pub data Verdict : Type 0 where
  valid : Verdict
  malformed_telemetry malformed unsupported digest_mismatch : Verdict
  not_authorized : AuthError → Verdict
  authentication_failed revision_mismatch : Verdict

-- What the code takes from elsewhere: `digest` is the hex SHA-256 of the canonical JSON of a payload,
-- `hmac` the hex HMAC of a digest under a secret, `revision_of` the integer that a snapshot holds as
-- its revision, `no_telemetry` the empty object.
pub record Service (Snapshot Telemetry : Type 0) : Type 0 where
  pub digest : Payload Snapshot Telemetry → String
  pub hmac : String → String → String
  pub revision_of : Snapshot → Option ℤ
  pub no_telemetry : Telemetry

abbrev pub or_else {ℓ} : {A : Type ℓ} → Option A → A → A
or_else none d = d
or_else (some a) d = a

module _ {Snapshot Telemetry : Type 0} (service : Service Snapshot Telemetry) where
  abbrev pub payload_of :
      Snapshot → String → ℤ → ℤ → Option Telemetry → Option String → Payload Snapshot Telemetry
  payload_of snapshot node epoch sequence telemetry key_id = record {
    version = elim telemetry [ none ↦ pos 1 | some _ ↦ pos 2 ];
    source = node;
    epoch = epoch;
    sequence = sequence;
    revision = or_else (service.revision_of snapshot) (pos 0);
    snapshot = snapshot;
    telemetry = telemetry;
    key_id = key_id;
  }

  abbrev pub sealed : Payload Snapshot Telemetry → String → Envelope Snapshot Telemetry
  sealed p key = record {
    version = some p.version;
    source = some p.source;
    epoch = some p.epoch;
    sequence = some p.sequence;
    revision = some p.revision;
    snapshot = object p.snapshot;
    telemetry = elim p.telemetry [ none ↦ missing | some t ↦ object t ];
    key_id = p.key_id;
    digest = service.digest p;
    hmac = if is_set key then service.hmac key (service.digest p) else "";
  }

  -- `make_envelope`; no secret is the empty one
  unfoldable pub make_envelope :
      Snapshot
      → String
      → ℤ
      → ℤ
      → String
      → Option Telemetry
      → Option String
      → Envelope Snapshot Telemetry
  make_envelope snapshot node epoch sequence key telemetry key_id =
      sealed (payload_of snapshot node epoch sequence telemetry key_id) key

  -- The telemetry of an envelope that has been read as version `version`; `none` is no object.
  abbrev pub read_telemetry : ℤ → Content Telemetry → Option (Option Telemetry)
  read_telemetry version t =
      if leb_ℤ (pos 2) version
      then elim t [
        | missing ↦ some (some service.no_telemetry)
        | no_object ↦ none
        | object x ↦ some (some x)
      ]
      else some none

  -- `auth_secret`: the secret to verify with, empty where the message need not be signed.
  unfoldable pub auth_secret : String → Option Keys → Option String → Auth
  auth_secret key none key_id = secret key
  auth_secret key (some k) key_id = if configured k then resolve k key_id else secret ""

  -- The tests on the rebuilt payload
  unfoldable pub verify_payload :
      Payload Snapshot Telemetry → String → String → String → Option Keys → Verdict
  verify_payload p digest hmac key keyset =
      if not (str_eq (service.digest p) digest)
      then digest_mismatch
      else elim (auth_secret key keyset p.key_id) [
        | refused e ↦ not_authorized e
        | secret s ↦
            if is_set s
              && (not (is_set hmac) || not (str_eq (service.hmac s (service.digest p)) hmac))
            then authentication_failed
            else if not (eqb_ℤ p.revision (or_else (service.revision_of p.snapshot) (negsuc 0)))
            then revision_mismatch
            else valid
      ]

  abbrev supported : ℤ → Bool
  supported v = eqb_ℤ v (pos 1) || eqb_ℤ v (pos 2)

  -- The tests once the ordering facts are read
  unfoldable pub verify_read :
      ℤ → String → ℤ → ℤ → ℤ → Envelope Snapshot Telemetry → String → Option Keys → Verdict
  unfolding verify_payload auth_secret
  verify_read version source epoch sequence revision e key keyset = elim e.snapshot [
    | missing ↦ malformed
    | no_object ↦ elim (read_telemetry version e.telemetry) [
      | none ↦ malformed_telemetry
      | some t ↦ unsupported
    ]
    | object s ↦ elim (read_telemetry version e.telemetry) [
      | none ↦ malformed_telemetry
      | some t ↦
          if not (supported version)
          then unsupported
          else verify_payload
              (record {
                version = version;
                source = source;
                epoch = epoch;
                sequence = sequence;
                revision = revision;
                snapshot = s;
                telemetry = t;
                key_id = e.key_id;
              })
              e.digest e.hmac key keyset
    ]
  ]

  -- `verify_envelope`
  unfoldable pub verify_envelope : Envelope Snapshot Telemetry → String → Option Keys → Verdict
  unfolding verify_read
  verify_envelope e key keyset = elim e.version [
    | none ↦ malformed
    | some v ↦ elim e.source [
      | none ↦ malformed
      | some n ↦ elim e.epoch [
        | none ↦ malformed
        | some x ↦ elim e.sequence [
          | none ↦ malformed
          | some q ↦ elim e.revision [
            | none ↦ malformed
            | some r ↦ verify_read v n x q r e key keyset
          ]
        ]
      ]
    ]
  ]

  -- An envelope verifies for whoever would verify with the secret that it was made with, if the
  -- snapshot holds a revision and the HMAC is never empty.
  pub make-verify :
      (snapshot : Snapshot) (node : String) (epoch sequence r : ℤ) (key : String)
      (telemetry : Option Telemetry) (key_id : Option String) (given : String)
      (keyset : Option Keys)
      → service.revision_of snapshot ≡ some r
      → auth_secret given keyset key_id ≡ secret key
      → ((d : String) → is_set (service.hmac key d) ≡ true)
      → verify_envelope
          (make_envelope snapshot node epoch sequence key telemetry key_id)
          given
          keyset
        ≡ valid
  unfolding verify_envelope make_envelope
  make-verify snapshot node epoch sequence r key none key_id given keyset hr ha hh =
      let d = service.digest (payload_of snapshot node epoch sequence none key_id) in
      ground (arith, str_eq_refl d, str_eq_refl (service.hmac key d), hh d)
  make-verify snapshot node epoch sequence r key (some t) key_id given keyset hr ha hh =
      let d = service.digest (payload_of snapshot node epoch sequence (some t) key_id) in
      ground (arith, str_eq_refl d, str_eq_refl (service.hmac key d), hh d)
