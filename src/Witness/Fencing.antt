-- ===== src/Witness/Fencing.antt =====
-- What the requests to one witness do to the lease of a cluster, over all its histories.
use stageforge.Prelude.{
  ℕ, ◌+◌, ◌≤◌, ◌<◌, ◌≡◌, refl, ◌⊎◌, inl, inr, String, str_eq, str_eq_iff, Bool, true, false, List,
  [], ◌∷◌, max, ◌==◌, not, ◌&&◌, arith, sym, ◌∙◌, if◌then◌else◌, ltb, Bool-cases, str_eq_refl,
}
use native.Mathlib.Decide.{dec_lt}
use stageforge.Prelude.Dict.{lookup-insert}
use stageforge.Prelude.Text.{is_set}
use stageforge.Witness.Store.{
  clamp_ttl, Lease, LeaseStore, Reply, Transfer, find_lease, put_lease, acquire, transfer,
  is_replay, fence_mismatch,
}

-- A request that `verify_request` or `verify_transfer_request` has let through.
pub data Request : Type 0 where
  ask : String → String → ℕ → Request
  hand_over : Transfer → Request

-- `do_POST` of backend/witness_server.py, past the authentication
unfoldable pub handle : Request → ℕ → LeaseStore → Reply × LeaseStore
handle (ask cluster node ttl) now s = acquire cluster node ttl now s
handle (hand_over t) now s = transfer t now s

-- The witness after a sequence of requests, each with the time at which it is served.
unfoldable pub serve : List (Request × ℕ) → LeaseStore → LeaseStore
serve [] s = s
serve ((r, now) ∷ rest) s = serve rest (handle r now s).1

abbrev pub lease_of : String → LeaseStore → Lease
lease_of c s = find_lease c s.leases

pub lease_of-put_lease :
    (c k : String) (l : Lease) (s : LeaseStore)
    → lease_of c (put_lease k l s) ≡ (if str_eq k c then l else lease_of c s)
unfolding put_lease find_lease
lease_of-put_lease c k l s = ground (arith, lookup-insert k c l s.leases)

-- The effect of each request on one lease, without the dictionary round it.
unfoldable pub acquired : String → ℕ → ℕ → Lease → Lease
unfolding is_set
acquired n ttl now l =
    if is_set l.holder && not (str_eq l.holder n) && ltb now l.expires then l else record {
      holder = n;
      epoch = max 1 (if str_eq l.holder n then l.epoch else l.epoch + 1);
      expires = now + clamp_ttl ttl;
      last_transaction = 0;
      last_source = "";
    }

unfoldable pub handed_over : Transfer → ℕ → Lease → Lease
unfolding is_replay fence_mismatch
handed_over t now l =
    if is_replay t l
    then l
    else if fence_mismatch t now l
    then l
    else if not (t.target_epoch == t.source_epoch + 1)
    then l
    else record {
      holder = t.target;
      epoch = t.target_epoch;
      expires = now + clamp_ttl t.ttl;
      last_transaction = t.transaction;
      last_source = t.source;
    }

pub lease_of-acquire :
    (c k n : String) (ttl now : ℕ) (s : LeaseStore)
    → lease_of c (acquire k n ttl now s).1
      ≡ (if str_eq k c then acquired n ttl now (lease_of c s) else lease_of c s)
unfolding acquire acquired
lease_of-acquire c k n ttl now s = elim (Bool-cases (str_eq k c)) [
  | inl same ↦ rw (← (str_eq_iff k c).0 same) (grind (arith, lease_of-put_lease, str_eq_refl k))
  | inr far ↦ rw far (grind (arith, lease_of-put_lease))
]

pub lease_of-transfer :
    (c : String) (t : Transfer) (now : ℕ) (s : LeaseStore)
    → lease_of c (transfer t now s).1
      ≡ (if str_eq t.cluster c then handed_over t now (lease_of c s) else lease_of c s)
unfolding transfer handed_over
lease_of-transfer c t now s = elim (Bool-cases (str_eq t.cluster c)) [
  | inl same ↦
      rw (← (str_eq_iff t.cluster c).0 same)
        (grind (arith, lease_of-put_lease, str_eq_refl t.cluster))
  | inr far ↦ rw far (grind (arith, lease_of-put_lease))
]

-- One step of a cluster's lease: the epoch never falls, and rises whenever the holder changes.
pub record Fenced (before after : Lease) : Type 0 where
  pub epoch_le : before.epoch ≤ after.epoch
  pub same_holder : before.epoch ≡ after.epoch → before.holder ≡ after.holder

pub Fenced-trans : (a b c : Lease) → Fenced a b → Fenced b c → Fenced a c
Fenced-trans a b c h k = record {
  epoch_le = omega arith;
  same_holder = λ e. ground (arith, h.same_holder (omega arith), k.same_holder (omega arith));
}

pub Fenced-refl : (a : Lease) → Fenced a a
Fenced-refl a = record { epoch_le = omega arith; same_holder = λ e. refl }

acquired-Fenced : (n : String) (ttl now : ℕ) (l : Lease) → Fenced l (acquired n ttl now l)
unfolding acquired
acquired-Fenced n ttl now l = record {
  epoch_le = ground arith;
  same_holder = λ e. ground (arith, str_eq_iff l.holder n);
}

handed_over-Fenced : (t : Transfer) (now : ℕ) (l : Lease) → Fenced l (handed_over t now l)
unfolding handed_over
handed_over-Fenced t now l = record { epoch_le = ground arith; same_holder = λ e. ground arith }

if-Fenced : (b : Bool) (l l' : Lease) → Fenced l l' → Fenced l (if b then l' else l)
if-Fenced true l l' h = h
if-Fenced false l l' h = Fenced-refl l

-- Whatever a witness is asked, it fences the lease of every cluster.
pub handle-Fenced :
    (c : String) (r : Request) (now : ℕ) (s : LeaseStore)
    → Fenced (lease_of c s) (lease_of c (handle r now s).1)
unfolding handle
handle-Fenced c (ask k n ttl) now s = rw lease_of-acquire (
    if-Fenced (str_eq k c) (lease_of c s) (acquired n ttl now (lease_of c s))
      (acquired-Fenced n ttl now (lease_of c s)))
handle-Fenced c (hand_over t) now s = rw lease_of-transfer (
    if-Fenced (str_eq t.cluster c) (lease_of c s) (handed_over t now (lease_of c s))
      (handed_over-Fenced t now (lease_of c s)))

pub serve-Fenced :
    (c : String) (rs : List (Request × ℕ)) (s : LeaseStore)
    → Fenced (lease_of c s) (lease_of c (serve rs s))
unfolding serve
serve-Fenced c [] s = Fenced-refl (lease_of c s)
serve-Fenced c ((r, now) ∷ rs) s =
    Fenced-trans (lease_of c s) (lease_of c (handle r now s).1)
      (lease_of c (serve rs (handle r now s).1)) (handle-Fenced c r now s)
      (serve-Fenced c rs (handle r now s).1)

abbrev pub cluster_of : Request → String
cluster_of (ask k n ttl) = k
cluster_of (hand_over t) = t.cluster

-- A grant names the holder and the epoch that the store then has.
pub grant_reports :
    (r : Request) (now : ℕ) (s : LeaseStore)
    → (handle r now s).0.is_granted ≡ true
    → let l = lease_of (cluster_of r) (handle r now s).1 in
      (l.holder ≡ (handle r now s).0.holder)
      × (l.epoch ≡ (handle r now s).0.epoch)
      × (l.expires ≡ (handle r now s).0.expires)
unfolding handle acquire transfer
grant_reports (ask k n ttl) now s g = grind (arith, lease_of-put_lease, str_eq_refl k)
grant_reports (hand_over t) now s g = grind (arith, lease_of-put_lease, str_eq_refl t.cluster)

-- The state and the reply of `second`, served after `first` and the requests `between`.
abbrev pub after : Request → ℕ → List (Request × ℕ) → LeaseStore → LeaseStore
after first now between s = serve between (handle first now s).1

-- If two requests about one cluster are both granted, at any distance and with any requests between
-- them, then the later grant has a greater epoch, or both have one epoch and name one holder.
pub epoch_fences_holder :
    (first second : Request) (now later : ℕ) (between : List (Request × ℕ)) (s : LeaseStore)
    → cluster_of second ≡ cluster_of first
    → (handle first now s).0.is_granted ≡ true
    → (handle second later (after first now between s)).0.is_granted ≡ true
    → ((handle first now s).0.epoch < (handle second later (after first now between s)).0.epoch)
      ⊎ (((handle first now s).0.epoch ≡ (handle second later (after first now between s)).0.epoch)
          × ((handle first now s).0.holder
              ≡ (handle second later (after first now between s)).0.holder))
epoch_fences_holder first second now later between s same g g' =
    let c = cluster_of first in
    let s₁ = (handle first now s).1 in
    let s₂ = serve between s₁ in
    let r₁ = grant_reports first now s g in
    let r₂ = rw same at (grant_reports second later s₂ g') in
    let f =
      Fenced-trans (lease_of c s₁) (lease_of c s₂) (lease_of c (handle second later s₂).1)
        (serve-Fenced c between s₁) (handle-Fenced c second later s₂) in
    elim (dec_lt (handle first now s).0.epoch (handle second later s₂).0.epoch) [
      | yes grows ↦ inl grows
      | no stays ↦
          let e : (handle first now s).0.epoch ≡ (handle second later s₂).0.epoch =
            omega (arith, r₁.1, r₂.1, f.epoch_le) in
          inr (e, sym r₁.0 ∙ f.same_holder (r₁.1 ∙ e ∙ sym r₂.1) ∙ r₂.0)
    ]

-- A lease that still runs, under each request.
acquired_live :
    (n : String) (ttl now : ℕ) (l : Lease)
    → is_set l.holder ≡ true
    → now < l.expires
    → (acquired n ttl now l).holder ≡ l.holder
unfolding acquired
acquired_live n ttl now l held live = ground (arith, str_eq_iff l.holder n)

handed_over_live :
    (t : Transfer) (now : ℕ) (l : Lease)
    → ((handed_over t now l).holder ≡ l.holder)
      ⊎ ((t.source ≡ l.holder)
          × (t.source_epoch ≡ l.epoch)
          × ((handed_over t now l).holder ≡ t.target))
unfolding handed_over
handed_over_live t now l = ground (arith, str_eq_iff l.holder t.source)

-- Whoever holds an unexpired lease keeps it through every request, unless the request is a transfer
-- for that cluster that names the holder and its epoch; then the transfer's target has it.
pub live_lease_kept :
    (c : String) (r : Request) (now : ℕ) (s : LeaseStore)
    → is_set (lease_of c s).holder ≡ true
    → now < (lease_of c s).expires
    → ((lease_of c (handle r now s).1).holder ≡ (lease_of c s).holder)
      ⊎ ((t : Transfer) × (r ≡ hand_over t)
          × (t.cluster ≡ c)
          × (t.source ≡ (lease_of c s).holder)
          × (t.source_epoch ≡ (lease_of c s).epoch)
          × ((lease_of c (handle r now s).1).holder ≡ t.target))
unfolding handle
live_lease_kept c (ask k n ttl) now s held live =
    inl (rw lease_of-acquire (ground (arith, acquired_live n ttl now (lease_of c s) held live)))
live_lease_kept c (hand_over t) now s held live = elim (Bool-cases (str_eq t.cluster c)) [
  | inl same ↦ elim (handed_over_live t now (lease_of c s)) [
    | inl kept ↦ inl (rw (lease_of-transfer, same) kept)
    | inr (own, e, to) ↦
        inr (t, refl, (str_eq_iff t.cluster c).0 same, own, e, rw (lease_of-transfer, same) to)
  ]
  | inr far ↦ inl (rw (lease_of-transfer, far) refl)
]
