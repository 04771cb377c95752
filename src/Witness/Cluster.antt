-- ===== src/Witness/Cluster.antt =====
-- A cluster: witnesses that serve requests one at a time, in any order and with any losses, and the
-- clients of backend/witness.py that ask them. Each request is served with a clock reading of its
-- own: `acquire` and `transfer` read the clock of their host before they take the lock, and another
-- request may come first. A client that has been fenced by a transfer does not come back here:
-- `recover` is not among the steps.
pub mod Count
pub mod Holding
pub mod Backing
pub mod Exclusion
use stageforge.Prelude.{
  ℕ, ◌+◌, ◌≤◌, ◌≡◌, ◌==◌, String, str_eq, Bool, true, false, Option, none, List, [], ◌∷◌, ◌++◌,
  if◌then◌else◌, suc, zero,
}
use stageforge.Witness.Store.{LeaseStore, Transfer, acquire, transfer}
use stageforge.Witness.Quorum.{
  WitnessResult, Client, Endpoint, Identity, no_grant, parse_result, answer_of, acquire_quorum,
  suspend,
}

abbrev pub at_index {ℓ} : {A : Type ℓ} → (ℕ → A) → ℕ → A → ℕ → A
at_index f i v j = if j == i then v else f j

abbrev pub at_node {ℓ} : {A : Type ℓ} → (String → A) → String → A → String → A
at_node f a v b = if str_eq a b then v else f b

-- `[one(url) for url in urls]`, for witnesses numbered from 0
unfoldable pub list_of {ℓ} : {A : Type ℓ} → ℕ → (ℕ → A) → List A
list_of zero f = []
list_of (suc n) f = list_of n f ++ f n ∷ []

-- `answers a i` is what the client of node `a` last heard from witness `i`. `now` is the true time,
-- which no part reads, and `readings a i` the clock reading of the last request of `a` that witness `i`
-- has served; both are only there to speak of the clocks.
pub record Cluster : Type 0 where
  pub now : ℕ
  pub readings : String → ℕ → ℕ
  pub stores : ℕ → LeaseStore
  pub answers : String → ℕ → WitnessResult
  pub clients : String → Client

-- Witness `i` has served `a` with a clock reading.
abbrev pub served : String → ℕ → ℕ → (LeaseStore → LeaseStore) → Cluster → Cluster
served a i at f s = record s {
  readings = at_node s.readings a (at_index (s.readings a) i at);
  stores = at_index s.stores i (f (s.stores i));
}

-- The client of `a` has a result from witness `i`.
abbrev pub hears : String → ℕ → WitnessResult → Cluster → Cluster
hears a i r s = record s { answers = at_node s.answers a (at_index (s.answers a) i r) }

module _ (name : String) (n : ℕ) (ttl : String → ℕ) where
  pub data Step (s : Cluster) : Cluster → Type 0 where
    -- time passes
    tick : (d : ℕ) → Step s (record s { now = s.now + d })
    -- witness `i` serves `a` with the clock reading `at`, and nobody reads the answer: it is lost, or
    -- the client no longer waits for it
    serve_lost :
        (a : String) (i at : ℕ) → Step s (served a i at (λ x. (acquire name a (ttl a) at x).1) s)
    -- witness `i` serves `a`, and the client reads the answer at `heard` on its own clock
    serve :
        (a : String) (i at heard : ℕ) (url : String) (e : Option Endpoint) (id : Identity)
        → Step s (
            hears a i
              (parse_result url name a none e
                (answer_of (acquire name a (ttl a) at (s.stores i)).0)
                id
                heard)
              (served a i at (λ x. (acquire name a (ttl a) at x).1) s))
    -- the client of `a` gives up on a request to witness `i`
    unanswered : (a : String) (i : ℕ) → Step s (hears a i (no_grant "") s)
    -- the client of `a` ends a round over what it has heard, at `at` on its clock
    conclude :
        (a : String) (at : ℕ)
        → Step s (record s {
          clients = at_node s.clients a (acquire_quorum at (list_of n (s.answers a)) (s.clients a));
        })
    -- the client of `a` begins a transfer
    fence :
        (a : String) → Step s (record s { clients = at_node s.clients a (suspend (s.clients a)) })
    -- witness `i` serves, with the clock reading `at`, a transfer that its source has begun
    move :
        (t : Transfer) (i at : ℕ)
        → (s.clients t.source).suspended ≡ true
        → Step s (record s { stores = at_index s.stores i (transfer t at (s.stores i)).1 })

  pub data Reach (s : Cluster) : Cluster → Type 0 where
    here : Reach s s
    next : {t u : Cluster} → Reach s t → Step t u → Reach s u

  -- A request is served with a reading that is at most `skew` ahead of the time, and no older than
  -- that of the same node's request before it at the same witness.
  abbrev pub IsInOrder : ℕ → {s t : Cluster} → Step s t → Type 0
  IsInOrder skew {s} (Step.serve_lost a i at) = (at ≤ s.now + skew) × (s.readings a i ≤ at)
  IsInOrder skew {s} (Step.serve a i at heard url e id) =
      (at ≤ s.now + skew) × (s.readings a i ≤ at)
  IsInOrder skew _ = Unit

  -- It is so for every request of a history.
  unfoldable pub IsTimely : ℕ → {s t : Cluster} → Reach s t → Type 0
  IsTimely skew Reach.here = Unit
  IsTimely skew (Reach.next r st) = IsTimely skew r × IsInOrder skew st
