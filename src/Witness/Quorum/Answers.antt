-- ===== src/Witness/Quorum/Answers.antt =====
-- What a client accepts as a grant.
use stageforge.Prelude.{
  ℕ, ◌≤◌, ◌<◌, ◌≡◌, ◌⊎◌, refl, sym, subst, String, str_eq_iff, Bool, true, arith, Option, none,
  some, Option-cases, Bool-cases, inl, inr,
}
use stageforge.Prelude.Int.{ℤ, pos, negsuc, eqb_ℤ_iff}
use stageforge.Witness.Quorum.{
  IdField, no_id, text_id, other_id, is_id, Endpoint, Identity, Response, WitnessResult, positive,
  parse_result, parse_grant, response_identity, same_text, same_transaction, distance,
}

-- What independent mode demands of the witness that answers.
abbrev pub IsIdentified : Option Endpoint → Identity → ℕ → Type 0
IsIdentified none i now = Unit
IsIdentified (some e) i now =
    (i.witness_id ≡ text_id e.witness_id)
    × (i.failure_domain ≡ text_id e.failure_domain)
    × ((m : ℕ) × (i.server_ms ≡ some (pos m)) × (0 < m) × (distance m now ≤ e.max_skew))

-- What a response demands to count as a grant, and what the result repeats of it
pub record IsGrant (name node : String) (asked : Option ℤ) (raw : Response) (r : WitnessResult)
    : Type 0 where
  pub granted : raw.granted ≡ some true
  pub cluster : raw.cluster ≡ some name
  pub holder : (raw.holder ≡ some node) × (r.holder ≡ some node)
  pub epoch : (raw.epoch ≡ some (pos r.epoch)) × (0 < r.epoch)
  pub expires : (raw.expires ≡ some (pos r.expires)) × (0 < r.expires)
  pub transaction : (asked ≡ none) ⊎ (raw.transaction ≡ asked)

same_text-same : (o : Option String) (s : String) → same_text o (some s) ≡ true → o ≡ some s
same_text-same none s h = absurd (cc)
same_text-same (some t) s h = rw ((str_eq_iff t s).0 h) refl

is_id-same : (f : IdField) (s : String) → is_id f s ≡ true → f ≡ text_id s
is_id-same no_id s h = absurd (cc)
is_id-same (text_id t) s h = rw ((str_eq_iff t s).0 h) refl
is_id-same (other_id t) s h = absurd (cc)

positive_lem : (o : Option ℤ) (n : ℕ) → positive o ≡ some n → (o ≡ some (pos n)) × (0 < n)
unfolding positive
positive_lem none n h = absurd (cc)
positive_lem (some (negsuc m)) n h = absurd (cc)
positive_lem (some (pos m)) n h = let e : m ≡ n = ground arith in (rw e refl, ground arith)

same_transaction-same : (t u : Option ℤ) → same_transaction t u ≡ true → (t ≡ none) ⊎ (u ≡ t)
same_transaction-same none u h = inl refl
same_transaction-same (some t) none h = absurd (cc)
same_transaction-same (some t) (some u) h = inr (rw ((eqb_ℤ_iff u t).0 h) refl)

response_identity_lem :
    (e : Option Endpoint) (i : Identity) (now : ℕ) (x : ℕ × Option ℕ)
    → response_identity e i now ≡ some x
    → IsIdentified e i now
unfolding response_identity
response_identity_lem none i now x h = tt
response_identity_lem (some e) i now x h = elim (Option-cases (positive i.server_ms)) [
  | inl bad ↦ absurd (ground arith)
  | inr (m, good) ↦
      let (same, above) = positive_lem i.server_ms m good in
      (
        is_id-same i.witness_id e.witness_id (ground arith),
        is_id-same i.failure_domain e.failure_domain (ground arith),
        (m, same, above, ground arith),
      )
]

parse_grant_lem :
    (url cluster node : String) (t : Option ℤ) (raw : Response) (g : Bool) (i : Identity)
    (clock : ℕ × Option ℕ)
    → raw.granted ≡ some g
    → raw.cluster ≡ some cluster
    → (parse_grant url node t raw g i clock).granted ≡ true
    → IsGrant cluster node t raw (parse_grant url node t raw g i clock)
unfolding parse_grant
parse_grant_lem url cluster node t raw g i (server, skew) a b h =
    elim (Option-cases (positive raw.epoch)) [
      | inl bad ↦ absurd (ground arith)
      | inr (epoch, ep) ↦ elim (Option-cases (positive raw.expires)) [
        | inl bad ↦ absurd (ground arith)
        | inr (expires, ex) ↦
            let (e, e0) = positive_lem raw.epoch epoch ep in
            let (x, x0) = positive_lem raw.expires expires ex in
            let holder = same_text-same raw.holder node (ground arith) in
            let trans = same_transaction-same t raw.transaction (ground arith) in
            let yes : g ≡ true = ground arith in
            record {
              granted = ground arith;
              cluster = b;
              holder = (holder, ground arith);
              epoch = (ground arith, ground arith);
              expires = (ground arith, ground arith);
              transaction = trans;
            }
      ]
    ]

-- A client counts a response as a grant only if the witness has granted, names this cluster and this
-- node, gives positive integers as epoch and expiry, which the result repeats, and gives the
-- transaction that is asked for, if one is; in independent mode the response also names the
-- endpoint's witness and failure domain, and a clock within the skew allowed.
pub parse_result_granted :
    (url cluster node : String) (t : Option ℤ) (e : Option Endpoint) (raw : Response) (i : Identity)
    (now : ℕ)
    → (parse_result url cluster node t e raw i now).granted ≡ true
    → IsGrant cluster node t raw (parse_result url cluster node t e raw i now)
      × IsIdentified e i now
unfolding parse_result
parse_result_granted url cluster node t e raw i now g = elim (Option-cases raw.granted) [
  | inl bad ↦ absurd (ground arith)
  | inr (b, eb) ↦ elim (Bool-cases (same_text raw.cluster (some cluster))) [
    | inr other ↦ absurd (ground arith)
    | inl here ↦ elim (Option-cases (response_identity e i now)) [
      | inl refused ↦ absurd (ground arith)
      | inr (clock, known) ↦
          let given : parse_result url cluster node t e raw i now
              ≡ parse_grant url node t raw b i clock =
            ground arith in
          let f : (parse_grant url node t raw b i clock).granted ≡ true = rw given at g in
          let q =
            parse_grant_lem url cluster node t raw b i clock eb
              (same_text-same raw.cluster cluster here) f in
          (
            subst (IsGrant cluster node t raw) (sym given) q,
            response_identity_lem e i now clock known,
          )
    ]
  ]
]
