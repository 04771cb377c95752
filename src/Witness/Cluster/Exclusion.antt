-- ===== src/Witness/Cluster/Exclusion.antt =====
-- At most one node of a cluster holds a valid lease.
use stageforge.Prelude.{
  ℕ, ◌+◌, ◌≤◌, ◌<◌, ◌≡◌, none, ap, String, str_eq, str_eq_iff, true, false, arith, Bool-cases, inl,
  inr,
}
use stageforge.Prelude.Text.{is_set}
use stageforge.Witness.Store.{LeaseStore, acquire, transfer, clamp_ttl}
use stageforge.Witness.Fencing.{lease_of}
use stageforge.Witness.Quorum.{
  WitnessResult, Client, no_grant, parse_result, answer_of, acquire_quorum, suspend, quorum_size,
  valid,
}
use stageforge.Witness.Cluster.{
  Cluster, Step, Reach, IsInOrder, IsTimely, served, hears, at_index, at_node, list_of,
}
use stageforge.Witness.Cluster.Count.{count_disjoint}
use stageforge.Witness.Cluster.Holding.{
  HoldsUntil, served-HoldsUntil, at_index_self, at_node_self, at_node-cases,
}
use stageforge.Witness.Cluster.Backing.{
  pledged, IsBacked, IsSound, tick-IsSound, Keeps-IsBacked, acquire-Keeps, transfer-Keeps,
  answer-IsBacked, no_grant-IsBacked, suspend-IsBacked, conclude-IsBacked,
}

module _ (name : String) (n quorum skew : ℕ) (ttl : String → ℕ) where
  at_node-IsBacked :
      (s : Cluster) (c : String) (client : Client)
      → (is_set c ≡ true
          → IsBacked name n quorum skew ttl c s.now (s.readings c) s.stores (s.answers c) client)
      → IsSound name n quorum skew ttl s
      → IsSound name n quorum skew ttl (record s { clients = at_node s.clients c client })
  at_node-IsBacked s c client new h a sa = elim (at_node-cases s.clients c client a) [
    | inl (same, e) ↦ rw (e, ← same) (new (rw (← same) at sa))
    | inr (other, e) ↦ rw e (h a sa)
  ]

  -- `a`'s answer changes, and what every node holds in the stores is kept.
  heard-IsSound :
      (s : Cluster) (c : String) (readings : String → ℕ → ℕ) (stores : ℕ → LeaseStore)
      (heard : ℕ → WitnessResult)
      → ((a : String)
          → is_set a ≡ true
          → IsBacked name n quorum skew ttl a s.now (readings a) stores (s.answers a) (s.clients a))
      → (is_set c ≡ true
          → IsBacked name n quorum skew ttl c s.now (readings c) stores heard (s.clients c))
      → IsSound name n quorum skew ttl
          (record s { readings = readings; stores = stores; answers = at_node s.answers c heard })
  heard-IsSound s c readings stores heard kept new a sa = elim (at_node-cases s.answers c heard a) [
    | inl (same, e) ↦ rw (e, ← same) (new (rw (← same) at sa))
    | inr (other, e) ↦ rw e (kept a sa)
  ]

  acquired-IsBacked :
      (s : Cluster) (c : String) (i at : ℕ)
      → (at ≤ s.now + skew) × (s.readings c i ≤ at)
      → IsSound name n quorum skew ttl s
      → (a : String) → is_set a ≡ true
      → IsBacked name n quorum skew ttl a s.now
          (at_node s.readings c (at_index (s.readings c) i at) a)
          (at_index s.stores i (acquire name c (ttl c) at (s.stores i)).1)
          (s.answers a)
          (s.clients a)
  acquired-IsBacked s c i at (early, order) h a sa =
      Keeps-IsBacked name n quorum skew ttl a s.now (s.readings a)
        (at_node s.readings c (at_index (s.readings c) i at) a) s.stores
        (at_index s.stores i (acquire name c (ttl c) at (s.stores i)).1) (s.answers a) (s.clients a)
        (acquire-Keeps name n quorum skew ttl a c s i at sa early order) (h a sa)

  -- A witness has served `c`, and what `c` has heard of it is no grant, or is backed.
  served-IsSound :
      (s : Cluster) (c : String) (i at : ℕ) (r : WitnessResult)
      → (at ≤ s.now + skew) × (s.readings c i ≤ at)
      → (r.granted ≡ true
          → (r.expires ≤ at + clamp_ttl (ttl c))
            × HoldsUntil c r.expires (lease_of name (acquire name c (ttl c) at (s.stores i)).1))
      → IsSound name n quorum skew ttl s
      → IsSound name n quorum skew ttl
          (hears c i r (served c i at (λ x. (acquire name c (ttl c) at x).1) s))
  served-IsSound s c i at r order new h =
      let readings = at_node s.readings c (at_index (s.readings c) i at) in
      let after = (acquire name c (ttl c) at (s.stores i)).1 in
      let stores = at_index s.stores i after in
      heard-IsSound s c readings stores (at_index (s.answers c) i r)
        (acquired-IsBacked s c i at order h)
        (λ sc.
          answer-IsBacked name n quorum skew ttl c s.now (readings c) stores (s.answers c)
            (s.clients c) i r
            (λ g.
              rw
                (
                  at_index_self s.stores i after,
                  at_node_self s.readings c (at_index (s.readings c) i at),
                  at_index_self (s.readings c) i at,
                )
                (new g))
            (acquired-IsBacked s c i at order h c sc))

  -- Every step keeps every running client backed.
  Step-IsSound :
      {s t : Cluster} (st : Step name n ttl s t)
      → IsInOrder name n ttl skew st
      → IsSound name n quorum skew ttl s
      → IsSound name n quorum skew ttl t
  Step-IsSound {s} (Step.tick d) o h = tick-IsSound name n quorum skew ttl s d h
  Step-IsSound {s} (Step.serve_lost c i at) o h = acquired-IsBacked s c i at o h
  Step-IsSound {s} (Step.serve c i at heard url e id) o h =
      served-IsSound s c i at
        (parse_result url name c none e (answer_of (acquire name c (ttl c) at (s.stores i)).0) id
          heard)
        o (served-HoldsUntil name c url (ttl c) at heard e id (s.stores i)) h
  Step-IsSound {s} (Step.unanswered c i) o h =
      heard-IsSound s c s.readings s.stores (at_index (s.answers c) i (no_grant "")) h (λ sc.
        no_grant-IsBacked name n quorum skew ttl c "" s.now (s.readings c) s.stores (s.answers c)
          (s.clients c) i (h c sc))
  Step-IsSound {s} (Step.conclude c at) o h =
      at_node-IsBacked s c (acquire_quorum at (list_of n (s.answers c)) (s.clients c))
        (λ sc.
          conclude-IsBacked name n quorum skew ttl c s.now at (s.readings c) s.stores (s.answers c)
            (s.clients c) (h c sc))
        h
  Step-IsSound {s} (Step.fence c) o h =
      at_node-IsBacked s c (suspend (s.clients c))
        (λ sc.
          suspend-IsBacked name n quorum skew ttl c s.now (s.readings c) s.stores (s.answers c)
            (s.clients c) (h c sc))
        h
  Step-IsSound {s} (Step.move t i at fenced) o h = λ a sa.
      Keeps-IsBacked name n quorum skew ttl a s.now (s.readings a) (s.readings a) s.stores
        (at_index s.stores i (transfer t at (s.stores i)).1) (s.answers a) (s.clients a)
        (transfer-Keeps name n quorum skew ttl a t s.now at (s.readings a) s.stores (s.clients a) i
          (λ run same. cc (ap (λ x. (s.clients x).suspended) same)))
        (h a sa)

  pub Reach-IsSound :
      {s t : Cluster}
      → IsSound name n quorum skew ttl s
      → (r : Reach name n ttl s t) → IsTimely name n ttl skew r
      → IsSound name n quorum skew ttl t
  unfolding IsTimely
  Reach-IsSound h Reach.here o = h
  Reach-IsSound h (Reach.next r st) (o, l) = Step-IsSound st l (Reach-IsSound h r o)

  -- A lease that is valid with the margin is unexpired on every clock.
  valid_live :
      (margin now at : ℕ) (c : Client)
      → skew + skew ≤ margin
      → now ≤ at + skew
      → valid margin at c ≡ true
      → (c.suspended ≡ false) × (now + skew < c.lease_expires)
  unfolding valid
  valid_live margin now at c m late v = (ground arith, ground arith)

  -- Two running clients that both have a lease that is unexpired on every clock are one.
  sound_excludes :
      (s : Cluster) (a b : String)
      → n < quorum + quorum
      → IsSound name n quorum skew ttl s
      → is_set a ≡ true
      → is_set b ≡ true
      → ((s.clients a).suspended ≡ false) × (s.now + skew < (s.clients a).lease_expires)
      → ((s.clients b).suspended ≡ false) × (s.now + skew < (s.clients b).lease_expires)
      → a ≡ b
  sound_excludes s a b majority h sa sb (ra, la) (rb, lb) = elim (Bool-cases (str_eq a b)) [
    | inl same ↦ (str_eq_iff a b).0 same
    | inr other ↦ absurd (
        omega (
          arith,
          (h a sa).lease_backed ra la,
          (h b sb).lease_backed rb lb,
          count_disjoint n
              (λ i.
                pledged a (s.clients a).lease_expires (ttl a) (s.readings a i)
                  (lease_of name (s.stores i)))
              (λ i.
                pledged b (s.clients b).lease_expires (ttl b) (s.readings b i)
                  (lease_of name (s.stores i)))
              (λ i _ e. ground (arith, str_eq_iff (lease_of name (s.stores i)).holder a)),
        ))
  ]

-- A client that has just started: nothing heard, and no lease.
pub record IsFresh (quorum : ℕ) (s : Cluster) (a : String) : Type 0 where
  pub named : (s.clients a).node_id ≡ a
  pub sized : quorum_size (s.clients a) ≡ quorum
  pub no_lease : (s.clients a).lease_expires ≡ 0
  pub no_answer : (i : ℕ) → (s.answers a i).granted ≡ false

IsFresh-IsBacked :
    (name : String) (n quorum skew : ℕ) (ttl : String → ℕ) (s : Cluster) (a : String)
    → IsFresh quorum s a
    → IsBacked name n quorum skew ttl a s.now (s.readings a) s.stores (s.answers a) (s.clients a)
IsFresh-IsBacked name n quorum skew ttl s a f = record {
  named = f.named;
  sized = f.sized;
  answer_bound = λ i g. absurd (ground (arith, f.no_answer i));
  answer_backed = λ i run g. absurd (ground (arith, f.no_answer i));
  lease_backed = λ run l. absurd (omega (arith, f.no_lease));
}

-- From clients that have just started, over witnesses with any leases on file, and with a majority
-- of the witnesses for a quorum, no sequence of requests, losses, transfers and waits leads to two
-- nodes whose clients both call their lease valid with a safety margin, each at a reading of its own
-- clock, provided that no witness's clock is ahead of the time by more than the skew and neither
-- client's is behind by more, that twice the skew is within the margin, and that each witness serves
-- the requests of one node in the order of their clock readings.
pub one_valid_lease :
    (name : String) (n quorum skew margin : ℕ) (ttl : String → ℕ) (s t : Cluster) (a b : String)
    (at_a at_b : ℕ)
    → n < quorum + quorum
    → skew + skew ≤ margin
    → ((c : String) → IsFresh quorum s c)
    → (r : Reach name n ttl s t) → IsTimely name n ttl skew r
    → is_set a ≡ true
    → is_set b ≡ true
    → t.now ≤ at_a + skew
    → t.now ≤ at_b + skew
    → valid margin at_a (t.clients a) ≡ true
    → valid margin at_b (t.clients b) ≡ true
    → a ≡ b
one_valid_lease name n quorum skew margin ttl s t a b at_a at_b majority wide fresh r timely sa sb
      la lb va vb =
    sound_excludes name n quorum skew ttl t a b majority
      (Reach-IsSound name n quorum skew ttl
        (λ c _. IsFresh-IsBacked name n quorum skew ttl s c (fresh c)) r timely)
      sa sb (valid_live name n quorum skew ttl margin t.now at_a (t.clients a) wide la va)
      (valid_live name n quorum skew ttl margin t.now at_b (t.clients b) wide lb vb)
