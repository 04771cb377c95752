-- ===== src/Witness/Cluster/Holding.antt =====
-- What a node holds at a witness until a given time, and what leaves it there.
use stageforge.Prelude.{
  ℕ, ◌+◌, ◌≤◌, ◌<◌, ◌≡◌, ◌≢◌, ◌∙◌, leb, String, str_eq, str_eq_iff, str_eq_refl, Bool, true, ◌&&◌,
  arith, ◌⊎◌, ◌↔◌, Option, none,
}
use stageforge.Prelude.Text.{is_set}
use stageforge.Witness.Store.{Lease, LeaseStore, Transfer, acquire, clamp_ttl}
use stageforge.Witness.Fencing.{ask, handle, grant_reports, lease_of, acquired, handed_over}
use stageforge.Witness.Quorum.{Endpoint, Identity, parse_result, answer_of}
use stageforge.Witness.Quorum.Answers.{parse_result_granted}
use stageforge.Witness.Cluster.{at_index, at_node}

-- The lease is `a`'s until `l` at least.
abbrev pub HoldsUntil : String → ℕ → Lease → Type 0
HoldsUntil a l lease = (lease.holder ≡ a) × (l ≤ lease.expires)

abbrev pub holds : String → ℕ → Lease → Bool
holds a l lease = str_eq lease.holder a && leb l lease.expires

-- What `a` has until `l`, at a lease that still runs, no other node's request takes away ...
pub acquired-HoldsUntil :
    (a b : String) (l ttl now : ℕ) (lease : Lease)
    → is_set a ≡ true
    → now < l
    → l ≤ now + clamp_ttl ttl ⊎ (a ≢ b)
    → HoldsUntil a l lease
    → HoldsUntil a l (acquired b ttl now lease)
unfolding acquired
acquired-HoldsUntil a b l ttl now lease sa live own h = ground (arith, str_eq_iff lease.holder b)

-- ... and no transfer by another node does.
pub handed_over-HoldsUntil :
    (a : String) (l now : ℕ) (t : Transfer) (lease : Lease)
    → t.source ≢ a
    → HoldsUntil a l lease
    → HoldsUntil a l (handed_over t now lease)
unfolding handed_over
handed_over-HoldsUntil a l now t lease ne h = ground (arith, str_eq_iff lease.holder t.source)

granted_expires :
    (name a : String) (ttl now : ℕ) (s : LeaseStore)
    → (acquire name a ttl now s).0.is_granted ≡ true
    → (acquire name a ttl now s).0.expires ≡ now + clamp_ttl ttl
unfolding acquire
granted_expires name a ttl now s g = ground arith

granted_lease :
    (name a : String) (ttl now : ℕ) (s : LeaseStore)
    → (acquire name a ttl now s).0.is_granted ≡ true
    → let l = lease_of name (acquire name a ttl now s).1 in
      (l.holder ≡ (acquire name a ttl now s).0.holder)
      × (l.epoch ≡ (acquire name a ttl now s).0.epoch)
      × (l.expires ≡ (acquire name a ttl now s).0.expires)
unfolding handle
granted_lease name a ttl now s g = grant_reports (ask name a ttl) now s g

-- A grant that a client reads off a witness's answer.
pub served-HoldsUntil :
    (name a url : String) (ttl at heard : ℕ) (e : Option Endpoint) (id : Identity) (s : LeaseStore)
    → let r = parse_result url name a none e (answer_of (acquire name a ttl at s).0) id heard in
      r.granted ≡ true
      → (r.expires ≤ at + clamp_ttl ttl)
        × HoldsUntil a r.expires (lease_of name (acquire name a ttl at s).1)
served-HoldsUntil name a url ttl at heard e id s g =
    let reply = (acquire name a ttl at s).0 in
    let q = (parse_result_granted url name a none e (answer_of reply) id heard g).0 in
    let ok : reply.is_granted ≡ true = let x = q.granted in cc in
    let mine : reply.holder ≡ a = let x = q.holder.0 in cc in
    let until = q.expires.0 in
    let (holder, _, expires) = granted_lease name a ttl at s ok in
    let bound = granted_expires name a ttl at s ok in (ground arith, (holder ∙ mine, ground arith))

pub at_index-cases {ℓ} :
    {A : Type ℓ} (f : ℕ → A) (i : ℕ) (v : A) (j : ℕ)
    → ((i ≡ j) × (at_index f i v j ≡ v)) ⊎ (at_index f i v j ≡ f j)
at_index-cases f i v j = ground arith

pub at_index_self {ℓ} : {A : Type ℓ} (f : ℕ → A) (i : ℕ) (v : A) → at_index f i v i ≡ v
at_index_self f i v = ground arith

pub at_node_self {ℓ} : {A : Type ℓ} (f : String → A) (a : String) (v : A) → at_node f a v a ≡ v
at_node_self f a v = ground (arith, str_eq_refl a)

pub at_node-cases {ℓ} :
    {A : Type ℓ} (f : String → A) (a : String) (v : A) (b : String)
    → ((a ≡ b) × (at_node f a v b ≡ v)) ⊎ ((a ≢ b) × (at_node f a v b ≡ f b))
at_node-cases f a v b = ground (arith, str_eq_iff a b)

pub holds_iff :
    (a : String) (l : ℕ) (lease : Lease) → (holds a l lease ≡ true) ↔ HoldsUntil a l lease
holds_iff a l lease =
    (λ e. ground (arith, str_eq_iff lease.holder a), λ e. ground (arith, str_eq_iff lease.holder a))
