-- ===== src/Secrets/Ring.antt =====
-- What a key ring that has been accepted gives.
use stageforge.Prelude.{
  ◌≡◌, ◌≢◌, String, str_eq_iff, str_eq-false, true, arith, Option, none, some, [], ◌∷◌, refl,
  Option-cases, inl, inr,
}
use text.Mathlib.TextLemmas.{cons-ne-nil}
use stageforge.Prelude.Dict.{Dict, lookup}
use stageforge.Prelude.Text.{is_set, str_length}
use stageforge.Secrets.{
  Keys, secret, valid_entries, valid_key_id, valid_secret, keyring_snapshot, resolve, active_secret,
  has_keys,
}

lookup-valid :
    (i s : String) (d : Dict String)
    → valid_entries d ≡ true
    → lookup i d ≡ some s
    → (valid_key_id i ≡ true) × (valid_secret s ≡ true)
unfolding lookup valid_entries
lookup-valid i s [] v e = cc
lookup-valid i s ((j, t) ∷ d) v e = ground (arith, str_eq_iff j i, lookup-valid i s d)

-- The fields of a key ring that has been accepted.
keyring_parts :
    (active : String) (d : Dict String) (k : Keys)
    → keyring_snapshot active d ≡ some k
    → (valid_key_id active ≡ true)
      × (valid_entries d ≡ true)
      × (k.active_key_id ≡ some active)
      × (k.keys ≡ d)
      × (k.keyring_mode ≡ true)
      × (lookup active d ≢ none)
unfolding keyring_snapshot
keyring_parts active d k h = elim (Option-cases (lookup active d)) [
  | inl missing ↦ absurd (ground arith)
  | inr (s, found) ↦ ground arith
]

-- An identifier that is accepted is not empty, and so the key ring has keys.
lookup-has_keys : (i s : String) (d : Dict String) → lookup i d ≡ some s → has_keys d ≡ true
unfolding lookup
lookup-has_keys i s [] e = cc
lookup-has_keys i s (x ∷ d) e = refl

active_set : (i : String) → valid_key_id i ≡ true → is_set i ≡ true
unfolding valid_key_id is_set str_length
active_set String.[] v = cc
active_set (String.◌∷◌ c s) v = rw (str_eq-false (String.◌∷◌ c s) "" (cons-ne-nil c s))

-- A key ring that has been accepted has an active secret, which the active identifier resolves to,
-- and which is long enough.
pub active_resolves :
    (active : String) (d : Dict String) (k : Keys)
    → keyring_snapshot active d ≡ some k
    → (s : String) × (active_secret k ≡ secret s)
      × (resolve k (some active) ≡ secret s)
      × (valid_secret s ≡ true)
unfolding resolve
active_resolves active d k h =
    let (ok, entries, id, keys, mode, there) = keyring_parts active d k h in
    elim (Option-cases (lookup active d)) [
      | inl missing ↦ absurd (there missing)
      | inr (s, found) ↦ (
        s,
        ground (arith, active_set active ok, lookup-has_keys active s d found),
        ground arith,
        (lookup-valid active s d entries found).1,
      )
    ]

-- Whatever identifier a message names, an accepted key ring answers with a valid secret of its own
-- under that identifier, or refuses.
pub resolve-IsKeyed :
    (active : String) (d : Dict String) (k : Keys) (i : Option String) (s : String)
    → keyring_snapshot active d ≡ some k
    → resolve k i ≡ secret s
    → (j : String) × (i ≡ some j) × (lookup j d ≡ some s) × (valid_secret s ≡ true)
unfolding resolve
resolve-IsKeyed active d k none s h e =
    let (ok, entries, id, keys, mode, there) = keyring_parts active d k h in absurd (ground arith)
resolve-IsKeyed active d k (some i) s h e =
    let (ok, entries, id, keys, mode, there) = keyring_parts active d k h in
    elim (Option-cases (lookup i k.keys)) [
      | inl missing ↦ absurd (ground arith)
      | inr (t, found) ↦
          let same : t ≡ s = ground arith in
          let at : lookup i d ≡ some s = ground arith in
          (i, refl, at, (lookup-valid i s d entries at).1)
    ]
