-- ===== src/Witness/Cluster/Backing.antt =====
-- The invariant of a running client: its grants and its lease are in the witnesses' stores.
use stageforge.Prelude.{
  ℕ, ◌+◌, ◌≤◌, ◌<◌, ◌≡◌, ◌≢◌, sym, ◌∙◌, String, str_eq, str_eq_iff, str_eq_refl, true, false, List,
  arith, Bool-cases, inl, inr, Option-cases, ◌⊎◌, some, ◌↔◌, Bool, ◌&&◌, leb,
}
use native.Mathlib.Nat.{le_trans}
use stageforge.Prelude.Text.{is_set}
use stageforge.Witness.Store.{Lease, LeaseStore, Transfer, acquire, transfer, clamp_ttl}
use stageforge.Witness.Fencing.{lease_of, lease_of-acquire, lease_of-transfer}
use stageforge.Witness.Quorum.{
  WitnessResult, Client, no_grant, acquire_quorum, suspend, quorum_size, quorum_lease,
}
use stageforge.Witness.Quorum.Selection.{supports, quorum_lease-IsSupported}
use stageforge.Witness.Cluster.{Cluster, at_index, at_node, list_of}
use stageforge.Witness.Cluster.Count.{count, count_mono, length-filter-list_of}
use stageforge.Witness.Cluster.Holding.{
  HoldsUntil, holds, acquired-HoldsUntil, handed_over-HoldsUntil, at_index-cases, at_node-cases,
  holds_iff,
}

-- What the end of a round leaves of a client.
concluded :
    (now : ℕ) (rs : List WitnessResult) (c : Client)
    → ((acquire_quorum now rs c).node_id ≡ c.node_id)
      × (quorum_size (acquire_quorum now rs c) ≡ quorum_size c)
      × ((acquire_quorum now rs c).suspended ≡ c.suspended)
      × (((acquire_quorum now rs c).lease_expires ≡ c.lease_expires)
          ⊎ ((e : ℕ) × (quorum_lease c.node_id (quorum_size c) now rs
                ≡ some ((acquire_quorum now rs c).lease_expires, e))))
unfolding acquire_quorum quorum_size
concluded now rs c = (
  ground arith,
  ground arith,
  ground arith,
  elim (Bool-cases c.suspended) [
    | inl fenced ↦ inl (ground arith)
    | inr run ↦ elim (Option-cases (quorum_lease c.node_id (quorum_size c) now rs)) [
      | inl without ↦ inl (ground arith)
      | inr ((l, e), given) ↦ inr (e, ground arith)
    ]
  ],
)

-- A lease until `l` is the node's, and no longer than the request read at `at` gives it.
abbrev pub pledged : String → ℕ → ℕ → ℕ → Lease → Bool
pledged a l ttl at lease = holds a l lease && leb l (at + clamp_ttl ttl)

pledged_iff :
    (a : String) (l ttl at : ℕ) (lease : Lease)
    → (pledged a l ttl at lease ≡ true) ↔ (HoldsUntil a l lease × (l ≤ at + clamp_ttl ttl))
pledged_iff a l ttl at lease =
    (λ e. ground (arith, holds_iff a l lease), λ e. ground (arith, holds_iff a l lease))

module _ (name : String) (n quorum skew : ℕ) (ttl : String → ℕ) where
  -- What a running client of `a` may rely on: a grant that it has heard, and its lease, are still in
  -- the witnesses' stores, as long as no clock is past their end.
  pub record IsBacked (a : String) (now : ℕ) (readings : ℕ → ℕ) (stores : ℕ → LeaseStore)
      (heard : ℕ → WitnessResult) (client : Client) : Type 0 where
    pub named : client.node_id ≡ a
    pub sized : quorum_size client ≡ quorum
    pub answer_bound :
        (i : ℕ) → (heard i).granted ≡ true → (heard i).expires ≤ readings i + clamp_ttl (ttl a)
    pub answer_backed :
        (i : ℕ)
        → client.suspended ≡ false
        → (heard i).granted ≡ true
        → now + skew < (heard i).expires
        → HoldsUntil a (heard i).expires (lease_of name (stores i))
    pub lease_backed :
        client.suspended ≡ false
        → now + skew < client.lease_expires
        → quorum
          ≤ count n
              (λ i. pledged a client.lease_expires (ttl a) (readings i) (lease_of name (stores i)))

  abbrev pub IsSound : Cluster → Type 0
  IsSound s =
      (a : String)
      → is_set a ≡ true
      → IsBacked a s.now (s.readings a) s.stores (s.answers a) (s.clients a)

  pub tick-IsSound : (s : Cluster) (d : ℕ) → IsSound s → IsSound (record s { now = s.now + d })
  tick-IsSound s d h a sa =
      let b = h a sa in
      record {
        named = b.named;
        sized = b.sized;
        answer_bound = b.answer_bound;
        answer_backed = λ i r g l. b.answer_backed i r g (omega arith);
        lease_backed = λ r l. b.lease_backed r (omega arith);
      }

  -- New stores and readings keep what a running `a` holds.
  pub record Keeps (a : String) (now : ℕ) (readings readings' : ℕ → ℕ)
      (stores stores' : ℕ → LeaseStore) (client : Client) : Type 0 where
    pub forward : (i : ℕ) → readings i ≤ readings' i
    pub held :
        (i l : ℕ)
        → client.suspended ≡ false
        → now + skew < l
        → l ≤ readings i + clamp_ttl (ttl a)
        → HoldsUntil a l (lease_of name (stores i))
        → HoldsUntil a l (lease_of name (stores' i))

  pub Keeps-IsBacked :
      (a : String) (now : ℕ) (readings readings' : ℕ → ℕ) (stores stores' : ℕ → LeaseStore)
      (heard : ℕ → WitnessResult) (client : Client)
      → Keeps a now readings readings' stores stores' client
      → IsBacked a now readings stores heard client
      → IsBacked a now readings' stores' heard client
  Keeps-IsBacked a now readings readings' stores stores' heard client k b =
      let until = client.lease_expires in
      record {
        named = b.named;
        sized = b.sized;
        answer_bound = λ i g. omega (arith, b.answer_bound i g, k.forward i);
        answer_backed = λ i r g l.
            k.held i (heard i).expires r l (b.answer_bound i g) (b.answer_backed i r g l);
        lease_backed = λ r l. le_trans (b.lease_backed r l) (
            count_mono n (λ i. pledged a until (ttl a) (readings i) (lease_of name (stores i)))
              (λ i. pledged a until (ttl a) (readings' i) (lease_of name (stores' i)))
              (λ i _ e.
                let (h, own) =
                  (pledged_iff a until (ttl a) (readings i) (lease_of name (stores i))).0 e in
                (pledged_iff a until (ttl a) (readings' i) (lease_of name (stores' i))).1
                  (k.held i until r l own h, omega (arith, own, k.forward i))));
      }

  acquire-held :
      (a b : String) (now at : ℕ) (readings : ℕ → ℕ) (stores : ℕ → LeaseStore) (i : ℕ)
      → is_set a ≡ true
      → at ≤ now + skew
      → (b ≡ a → readings i ≤ at)
      → (j l : ℕ) → now + skew < l
      → l ≤ readings j + clamp_ttl (ttl a)
      → HoldsUntil a l (lease_of name (stores j))
      → HoldsUntil a l
          (lease_of name (at_index stores i (acquire name b (ttl b) at (stores i)).1 j))
  acquire-held a b now at readings stores i sa early order j l live bound h =
      elim (at_index-cases stores i (acquire name b (ttl b) at (stores i)).1 j) [
        | inl (same, e) ↦
            rw (e, lease_of-acquire, str_eq_refl name)
              (acquired-HoldsUntil a b l (ttl b) at (lease_of name (stores i)) sa (omega arith)
                (elim (Bool-cases (str_eq b a)) [
                  | inl mine ↦
                      let m = (str_eq_iff b a).0 mine in
                      let o = order m in
                      let own : l ≤ readings i + clamp_ttl (ttl a) = rw same bound in
                      inl (rw m (omega arith))
                  | inr other ↦ inr (ground (arith, str_eq_iff b a))
                ])
                (rw same h))
        | inr e ↦ rw e h
      ]

  -- A request of another node, or a later one of the same node
  pub acquire-Keeps :
      (a b : String) (s : Cluster) (i at : ℕ)
      → is_set a ≡ true
      → at ≤ s.now + skew
      → s.readings b i ≤ at
      → Keeps a s.now
          (s.readings a)
          (at_node s.readings b (at_index (s.readings b) i at) a)
          s.stores
          (at_index s.stores i (acquire name b (ttl b) at (s.stores i)).1)
          (s.clients a)
  acquire-Keeps a b s i at sa early order = record {
    forward = λ j. elim (at_node-cases s.readings b (at_index (s.readings b) i at) a) [
      | inl (mine, e) ↦
          rw (e, ← mine)
            (elim (at_index-cases (s.readings b) i at j) [
              | inl (same, e') ↦ rw (e', ← same) order
              | inr e' ↦ rw e' (omega arith)
            ])
      | inr (other, e) ↦ rw e (omega arith)
    ];
    held = λ j l run live bound h.
        acquire-held a b s.now at (s.readings a) s.stores i sa early (λ mine. rw (← mine) order) j l
          live bound h;
  }

  pub transfer-Keeps :
      (a : String) (t : Transfer) (now at : ℕ) (readings : ℕ → ℕ) (stores : ℕ → LeaseStore)
      (client : Client) (i : ℕ)
      → (client.suspended ≡ false → t.source ≢ a)
      → Keeps a now readings readings stores (at_index stores i (transfer t at (stores i)).1) client
  transfer-Keeps a t now at readings stores client i other = record {
    forward = λ j. omega arith;
    held = λ j l run live bound h. elim (at_index-cases stores i (transfer t at (stores i)).1 j) [
      | inl (same, e) ↦
          rw (e, lease_of-transfer)
            (elim (Bool-cases (str_eq t.cluster name)) [
              | inl here ↦ rw here (
                  handed_over-HoldsUntil a l at t (lease_of name (stores i)) (other run)
                    (rw same h))
              | inr far ↦ rw far (rw same h)
            ])
      | inr e ↦ rw e h
    ];
  }

  -- A new answer that is no grant, or is backed itself.
  pub answer-IsBacked :
      (a : String) (now : ℕ) (readings : ℕ → ℕ) (stores : ℕ → LeaseStore)
      (heard : ℕ → WitnessResult) (client : Client) (i : ℕ) (r : WitnessResult)
      → (r.granted ≡ true
          → (r.expires ≤ readings i + clamp_ttl (ttl a))
            × HoldsUntil a r.expires (lease_of name (stores i)))
      → IsBacked a now readings stores heard client
      → IsBacked a now readings stores (at_index heard i r) client
  answer-IsBacked a now readings stores heard client i r new b = record {
    named = b.named;
    sized = b.sized;
    answer_bound = λ j. elim (at_index-cases heard i r j) [
      | inl (same, e) ↦ rw (e, ← same) (λ g. (new g).0)
      | inr e ↦ rw e (b.answer_bound j)
    ];
    answer_backed = λ j. elim (at_index-cases heard i r j) [
      | inl (same, e) ↦ rw (e, ← same) (λ run g l. (new g).1)
      | inr e ↦ rw e (b.answer_backed j)
    ];
    lease_backed = b.lease_backed;
  }

  pub no_grant-IsBacked :
      (a url : String) (now : ℕ) (readings : ℕ → ℕ) (stores : ℕ → LeaseStore)
      (heard : ℕ → WitnessResult) (client : Client) (i : ℕ)
      → IsBacked a now readings stores heard client
      → IsBacked a now readings stores (at_index heard i (no_grant url)) client
  no_grant-IsBacked a url now readings stores heard client i =
      answer-IsBacked a now readings stores heard client i (no_grant url)
        (λ g. absurd (ground arith))

  pub suspend-IsBacked :
      (a : String) (now : ℕ) (readings : ℕ → ℕ) (stores : ℕ → LeaseStore)
      (heard : ℕ → WitnessResult) (client : Client)
      → IsBacked a now readings stores heard client
      → IsBacked a now readings stores heard (suspend client)
  unfolding suspend quorum_size
  suspend-IsBacked a now readings stores heard client b = record {
    named = b.named;
    sized = b.sized;
    answer_bound = b.answer_bound;
    answer_backed = λ i run. absurd (ground arith);
    lease_backed = λ run. absurd (ground arith);
  }

  supporter :
      (a : String) (at l : ℕ) (r : WitnessResult)
      → supports a at l r ≡ true
      → (r.granted ≡ true) × (l ≤ r.expires)
  supporter a at l r h = ground arith

  lease-IsBacked :
      (a : String) (now at l e : ℕ) (readings : ℕ → ℕ) (stores : ℕ → LeaseStore)
      (heard : ℕ → WitnessResult) (client : Client)
      → IsBacked a now readings stores heard client
      → quorum_lease client.node_id (quorum_size client) at (list_of n heard) ≡ some (l, e)
      → client.suspended ≡ false
      → now + skew < l
      → quorum ≤ count n (λ i. pledged a l (ttl a) (readings i) (lease_of name (stores i)))
  lease-IsBacked a now at l e readings stores heard client b given run live =
      let given' : quorum_lease a quorum at (list_of n heard) ≡ some (l, e) =
        rw (b.sized, b.named) at given in
      let (lt, pos, enough) = quorum_lease-IsSupported a quorum at (list_of n heard) l e given' in
      let many : quorum ≤ count n (λ i. supports a at l (heard i)) =
        rw (length-filter-list_of n (supports a at l) heard) at enough in
      le_trans many (
        count_mono n (λ i. supports a at l (heard i))
          (λ i. pledged a l (ttl a) (readings i) (lease_of name (stores i)))
          (λ i _ s.
            let (g, le) = supporter a at l (heard i) s in
            let (mine, until) = b.answer_backed i run g (omega arith) in
            (pledged_iff a l (ttl a) (readings i) (lease_of name (stores i))).1
              ((mine, le_trans le until), le_trans le (b.answer_bound i g))))

  pub conclude-IsBacked :
      (a : String) (now at : ℕ) (readings : ℕ → ℕ) (stores : ℕ → LeaseStore)
      (heard : ℕ → WitnessResult) (client : Client)
      → IsBacked a now readings stores heard client
      → IsBacked a now readings stores heard (acquire_quorum at (list_of n heard) client)
  conclude-IsBacked a now at readings stores heard client b =
      let c' = acquire_quorum at (list_of n heard) client in
      let (node, size, run, lease) = concluded at (list_of n heard) client in
      record {
        named = node ∙ b.named;
        sized = size ∙ b.sized;
        answer_bound = b.answer_bound;
        answer_backed = λ i r. b.answer_backed i (sym run ∙ r);
        lease_backed = λ r l. elim lease [
          | inl old ↦ rw old (b.lease_backed (sym run ∙ r) (rw old at l))
          | inr (e, given) ↦
              lease-IsBacked a now at c'.lease_expires e readings stores heard client b given
                (sym run ∙ r) l
        ];
      }
