-- ===== src/Secrets.antt =====
-- `HmacKeySnapshot` of backend/cluster_secrets.py: the authentication keys that one network operation
-- pins, and the tests of a key ring's entries. Keys and identifiers are texts, since a key ring holds
-- printable ASCII only; the legacy secret, which may be any bytes, is a text too.
pub mod Ring
use stageforge.Prelude.{
  ℕ, suc, ◌≤◌, ◌≡◌, ◌==◌, leb, ltb, not, String, str_eq, str_eq_iff, Bool, true, false, ◌&&◌, ◌||◌,
  if◌then◌else◌, arith, Option, none, some, List, [], ◌∷◌, refl, length, ◌⊎◌, inl, inr,
}
use Prim.Native.Char.{code}
use stageforge.Prelude.Dict.{Dict, lookup}
use stageforge.Prelude.Text.{is_set, str_length}

pub record Keys : Type 0 where
  pub active_key_id : Option String
  pub keys : Dict String
  pub keyring_mode : Bool

pub data AuthError : Type 0 where
  no_active_key needs_keyring_mode key_id_required unknown_key : AuthError

pub data Auth : Type 0 where
  secret : String → Auth
  refused : AuthError → Auth

pub Auth-cases : (a : Auth) → ((s : String) × (a ≡ secret s)) ⊎ ((x : AuthError) × (a ≡ refused x))
Auth-cases (secret s) = inl (s, refl)
Auth-cases (refused x) = inr (x, refl)

-- `c.isalnum() or c in "._-"`, for an ASCII character
unfoldable pub is_key_char : ℕ → Bool
is_key_char c =
    (leb b'0' c && leb c b'9')
    || (leb b'A' c && leb c b'Z')
    || (leb b'a' c && leb c b'z')
    || (c == b'.' || c == b'_' || c == b'-')

unfoldable pub all_chars : (ℕ → Bool) → String → Bool
all_chars p String.[] = true
all_chars p (String.◌∷◌ c s) = p (code c) && all_chars p s

-- `_valid_key_id`, of a text
unfoldable pub valid_key_id : String → Bool
unfolding is_key_char all_chars
valid_key_id s = leb 1 (str_length s) && (leb (str_length s) 64 && all_chars is_key_char s)

-- `_secret_bytes` accepts the text
unfoldable pub valid_secret : String → Bool
unfolding all_chars
valid_secret s =
    leb 32 (str_length s) && (leb (str_length s) 512 && all_chars (λ c. leb 33 c && leb c 126) s)

abbrev pub has_keys : Dict String → Bool
has_keys [] = false
has_keys (e ∷ d) = true

unfoldable pub configured : Keys → Bool
configured k = has_keys k.keys

-- `self.keys[...]`, or the error of a missing key
abbrev keyed : Option String → AuthError → Auth
keyed none e = refused e
keyed (some s) e = secret s

abbrev first_key : Dict String → Auth
first_key [] = secret ""
first_key ((_, s) ∷ _) = secret s

unfoldable pub active_secret : Keys → Auth
unfolding configured
active_secret k =
    if not (configured k)
    then secret ""
    else if k.keyring_mode
    then elim k.active_key_id [
      | none ↦ refused no_active_key
      | some i ↦ if is_set i then keyed (lookup i k.keys) no_active_key else refused no_active_key
    ]
    else first_key k.keys

-- `resolve`; the identifier is `none` where the message has no `keyId` (or one that is no text).
unfoldable pub resolve : Keys → Option String → Auth
unfolding active_secret
resolve k none = if k.keyring_mode then refused key_id_required else active_secret k
resolve k (some i) =
    if not k.keyring_mode
    then (if is_set i then refused needs_keyring_mode else active_secret k)
    else if not (valid_key_id i)
    then refused key_id_required
    else keyed (lookup i k.keys) unknown_key

-- A key ring's document: the entries are valid, no secret serves two identifiers, and the active one
-- is among them (the tests of `RotatingHmacKeyring.snapshot` past the JSON shape).
abbrev contains : String → Dict String → Bool
contains s [] = false
contains s ((_, t) ∷ d) = str_eq s t || contains s d

unfoldable pub valid_entries : Dict String → Bool
unfolding valid_key_id valid_secret
valid_entries [] = true
valid_entries ((i, s) ∷ d) =
    valid_key_id i && (valid_secret s && (not (contains s d) && valid_entries d))

unfoldable pub keyring_snapshot : String → Dict String → Option Keys
unfolding valid_entries
keyring_snapshot active d =
    if not (valid_key_id active) || not (leb 1 (length d) && leb (length d) 16)
    then none
    else if not (valid_entries d)
    then none
    else elim (lookup active d) [
      | none ↦ none
      | some _ ↦ some (record { active_key_id = some active; keys = d; keyring_mode = true })
    ]
