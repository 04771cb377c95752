-- ===== src/Replication/Authenticity.antt =====
-- What an envelope that verifies is known to hold.
use stageforge.Prelude.{
  Bool-cases, true, none, ◌≡◌, refl, ◌⊎◌, inl, inr, Option-cases, String, str_eq_iff, false, arith,
  Option, some,
}
use stageforge.Prelude.Int.{ℤ, pos, negsuc, eqb_ℤ_iff, leb_ℤ}
use stageforge.Prelude.Text.{is_set}
use stageforge.Secrets.{Keys, Auth-cases, secret}
use stageforge.Replication.Envelope.{
  Content, missing, no_object, object, Payload, Envelope, valid, Service, read_telemetry, or_else,
  auth_secret, verify_payload, verify_read, verify_envelope,
}

-- The telemetry of a payload of a version, from the envelope's field: none before version 2, the object
-- that is there, or an empty one where there is none
pub data TelemetryOf {T : Type 0} (empty : T) : ℤ → Content T → Option T → Type 0 where
  before_telemetry : {v : ℤ} {c : Content T} → leb_ℤ (pos 2) v ≡ false → TelemetryOf empty v c none
  left_out : {v : ℤ} → leb_ℤ (pos 2) v ≡ true → TelemetryOf empty v missing (some empty)
  given : {v : ℤ} {t : T} → leb_ℤ (pos 2) v ≡ true → TelemetryOf empty v (object t) (some t)

module _ {Snapshot Telemetry : Type 0} (service : Service Snapshot Telemetry) where
  -- The payload is the one that the envelope's fields spell.
  pub record Spells (e : Envelope Snapshot Telemetry) (p : Payload Snapshot Telemetry)
      : Type 0 where
    pub version : e.version ≡ some p.version
    pub source : e.source ≡ some p.source
    pub epoch : e.epoch ≡ some p.epoch
    pub sequence : e.sequence ≡ some p.sequence
    pub revision : e.revision ≡ some p.revision
    pub snapshot : e.snapshot ≡ object p.snapshot
    pub telemetry : TelemetryOf service.no_telemetry p.version e.telemetry p.telemetry
    pub key_id : e.key_id ≡ p.key_id

  -- A payload under a digest and an HMAC that a receiver may trust.
  pub record IsAuthentic (p : Payload Snapshot Telemetry) (digest hmac key : String)
      (keyset : Option Keys) : Type 0 where
    pub s : String
    pub resolved : auth_secret service key keyset p.key_id ≡ secret s
    pub digested : service.digest p ≡ digest
    pub signed : (is_set s ≡ false) ⊎ (service.hmac s digest ≡ hmac)
    pub known : (p.version ≡ pos 1) ⊎ (p.version ≡ pos 2)
    pub revised : p.revision ≡ or_else (service.revision_of p.snapshot) (negsuc 0)

  verify_payload-IsAuthentic :
      (p : Payload Snapshot Telemetry) (digest hmac key : String) (keyset : Option Keys)
      → (p.version ≡ pos 1) ⊎ (p.version ≡ pos 2)
      → verify_payload service p digest hmac key keyset ≡ valid
      → IsAuthentic p digest hmac key keyset
  unfolding verify_payload
  verify_payload-IsAuthentic p digest hmac key keyset known h =
      elim (Auth-cases (auth_secret service key keyset p.key_id)) [
        | inl (s, e) ↦ record {
          s = s;
          resolved = e;
          digested = ground (arith, str_eq_iff (service.digest p) digest);
          signed = ground (
            arith,
            str_eq_iff (service.digest p) digest,
            str_eq_iff (service.hmac s (service.digest p)) hmac,
          );
          known = known;
          revised =
              ground
                (arith, eqb_ℤ_iff p.revision (or_else (service.revision_of p.snapshot) (negsuc 0)));
        }
        | inr (x, e) ↦ absurd (ground arith)
      ]

  Content-cases {ℓ} :
      {A : Type ℓ} (c : Content A) → (c ≡ missing) ⊎ (c ≡ no_object) ⊎ ((a : A) × (c ≡ object a))
  Content-cases missing = inl refl
  Content-cases no_object = inr (inl refl)
  Content-cases (object a) = inr (inr (a, refl))

  read_telemetry-TelemetryOf :
      (v : ℤ) (c : Content Telemetry) (t : Option Telemetry)
      → read_telemetry service v c ≡ some t
      → TelemetryOf service.no_telemetry v c t
  read_telemetry-TelemetryOf v missing t h = elim (Bool-cases (leb_ℤ (pos 2) v)) [
    | inl new ↦ let e : t ≡ some service.no_telemetry = ground arith in rw e (left_out new)
    | inr old ↦ let e : t ≡ none = ground arith in rw e (before_telemetry old)
  ]
  read_telemetry-TelemetryOf v no_object t h = elim (Bool-cases (leb_ℤ (pos 2) v)) [
    | inl new ↦ absurd (ground arith)
    | inr old ↦ let e : t ≡ none = ground arith in rw e (before_telemetry old)
  ]
  read_telemetry-TelemetryOf v (object x) t h = elim (Bool-cases (leb_ℤ (pos 2) v)) [
    | inl new ↦ let e : t ≡ some x = ground arith in rw e (given new)
    | inr old ↦ let e : t ≡ none = ground arith in rw e (before_telemetry old)
  ]

  -- The payload that `verify_envelope` rebuilds.
  rebuilt :
      ℤ
      → String
      → ℤ
      → ℤ
      → ℤ
      → Snapshot
      → Option Telemetry
      → Option String
      → Payload Snapshot Telemetry
  rebuilt v n x q r s t k = record {
    version = v;
    source = n;
    epoch = x;
    sequence = q;
    revision = r;
    snapshot = s;
    telemetry = t;
    key_id = k;
  }

  verify_read-valid :
      (v : ℤ) (n : String) (x q r : ℤ) (e : Envelope Snapshot Telemetry) (key : String)
      (keyset : Option Keys)
      → verify_read service v n x q r e key keyset ≡ valid
      → (s : Snapshot) × (t : Option Telemetry) × (e.snapshot ≡ object s)
        × TelemetryOf service.no_telemetry v e.telemetry t
        × ((v ≡ pos 1) ⊎ (v ≡ pos 2))
        × (verify_payload service (rebuilt v n x q r s t e.key_id) e.digest e.hmac key keyset
            ≡ valid)
  unfolding verify_read rebuilt
  verify_read-valid v n x q r e key keyset h = elim (Content-cases e.snapshot) [
    | inl a ↦ absurd (ground arith)
    | inr (inl b) ↦ absurd (ground arith)
    | inr (inr (s, c)) ↦ elim (Option-cases (read_telemetry service v e.telemetry)) [
      | inl bad ↦ absurd (ground arith)
      | inr (t, good) ↦ (
        s,
        t,
        c,
        read_telemetry-TelemetryOf v e.telemetry t good,
        ground (arith, eqb_ℤ_iff v (pos 1), eqb_ℤ_iff v (pos 2)),
        ground arith,
      )
    ]
  ]

  -- An envelope that verifies spells a payload of a known version, its telemetry included, whose digest it bears, which is
  -- signed under the secret that the receiver resolves, unless that secret is empty, and whose
  -- revision is its snapshot's.
  pub verify-IsAuthentic :
      (e : Envelope Snapshot Telemetry) (key : String) (keyset : Option Keys)
      → verify_envelope service e key keyset ≡ valid
      → (p : Payload Snapshot Telemetry) × Spells e p × IsAuthentic p e.digest e.hmac key keyset
  unfolding verify_envelope
  verify-IsAuthentic e key keyset h = elim (Option-cases e.version) [
    | inl a ↦ absurd (ground arith)
    | inr (v, ev) ↦ elim (Option-cases e.source) [
      | inl a ↦ absurd (ground arith)
      | inr (n, en) ↦ elim (Option-cases e.epoch) [
        | inl a ↦ absurd (ground arith)
        | inr (x, ex) ↦ elim (Option-cases e.sequence) [
          | inl a ↦ absurd (ground arith)
          | inr (q, eq) ↦ elim (Option-cases e.revision) [
            | inl a ↦ absurd (ground arith)
            | inr (r, er) ↦
                let (s, t, es, et, known, ok) =
                  verify_read-valid v n x q r e key keyset (ground arith) in
                (
                  rebuilt v n x q r s t e.key_id,
                  unfold rebuilt in
                      record {
                        version = ev;
                        source = en;
                        epoch = ex;
                        sequence = eq;
                        revision = er;
                        snapshot = es;
                        telemetry = et;
                        key_id = refl;
                      },
                  verify_payload-IsAuthentic (rebuilt v n x q r s t e.key_id) e.digest e.hmac key
                      keyset (unfold rebuilt in known) ok,
                )
          ]
        ]
      ]
    ]
  ]
