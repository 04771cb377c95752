-- ===== src/Witness/Handover.antt =====
-- Transfers of a lease between two nodes, their retries, restarts of the witness, and the recovery
-- of the node that gave the lease away.
use stageforge.Prelude.{
  ℕ, ◌+◌, ◌<◌, ◌≡◌, ◌≢◌, ◌⊎◌, ◌↔◌, String, str_eq_iff, str_eq_refl, true, false, List, [], ◌∷◌,
  arith, subst, All, Bool, Bool-cases, inl, inr,
}
use stageforge.Witness.Store.{
  Lease, LeaseStore, Transfer, put_lease, acquire, transfer, is_replay, load, authorize_recovery,
  already_transferred,
}
use stageforge.Witness.Fencing.{
  Request, ask, hand_over, handle, serve, lease_of, lease_of-put_lease, lease_of-acquire, acquired,
}

transfer_test :
    (t : Transfer) (now : ℕ) (s : LeaseStore)
    → ((transfer t now s).0.is_granted ≡ true) ↔ (
        ((lease_of t.cluster s).last_transaction ≡ t.transaction)
          × ((lease_of t.cluster s).last_source ≡ t.source)
          × ((lease_of t.cluster s).holder ≡ t.target)
          × ((lease_of t.cluster s).epoch ≡ t.target_epoch)
        ⊎ ((lease_of t.cluster s).holder ≡ t.source)
          × ((lease_of t.cluster s).epoch ≡ t.source_epoch)
          × (now < (lease_of t.cluster s).expires)
          × (t.target_epoch ≡ t.source_epoch + 1))
unfolding transfer is_replay
transfer_test t now s =
    let l = lease_of t.cluster s in
    (
      λ g. ground (
        arith,
        str_eq_iff l.holder t.source,
        str_eq_iff l.last_source t.source,
        str_eq_iff l.holder t.target,
      ),
      λ h. ground (
        arith,
        str_eq_iff l.holder t.source,
        str_eq_iff l.last_source t.source,
        str_eq_iff l.holder t.target,
      ),
    )

-- A refused transfer leaves the store as it was.
pub transfer_refused_keeps :
    (t : Transfer) (now : ℕ) (s : LeaseStore)
    → (transfer t now s).0.is_granted ≡ false
    → (transfer t now s).1 ≡ s
unfolding transfer
transfer_refused_keeps t now s h = ground arith

-- What a granted transfer leaves behind makes the same transfer a repetition.
transfer_records :
    (t : Transfer) (now : ℕ) (s : LeaseStore)
    → (transfer t now s).0.is_granted ≡ true
    → is_replay t (lease_of t.cluster (transfer t now s).1) ≡ true
unfolding transfer
transfer_records t now s g =
    grind
      (arith, lease_of-put_lease, str_eq_refl t.cluster, str_eq_refl t.source, str_eq_refl t.target)

transfer_leaves :
    (t : Transfer) (now : ℕ) (s : LeaseStore)
    → ((transfer t now s).0.is_granted ≡ true)
        × ((lease_of t.cluster (transfer t now s).1).last_transaction ≡ t.transaction)
        × ((lease_of t.cluster (transfer t now s).1).last_source ≡ t.source)
        × ((lease_of t.cluster (transfer t now s).1).holder ≡ t.target)
        × ((lease_of t.cluster (transfer t now s).1).epoch ≡ t.target_epoch)
      ⊎ ((transfer t now s).0.is_granted ≡ false) × ((transfer t now s).1 ≡ s)
unfolding is_replay
transfer_leaves t now s = elim (Bool-cases (transfer t now s).0.is_granted) [
  | inl granted ↦
      let r = transfer_records t now s granted in
      let l = lease_of t.cluster (transfer t now s).1 in
      inl (
        granted,
        ground arith,
        ground (arith, str_eq_iff l.last_source t.source),
        ground (arith, str_eq_iff l.holder t.target),
        ground arith,
      )
  | inr refused ↦ inr (refused, transfer_refused_keeps t now s refused)
]

-- A transfer is granted exactly when the lease is still as the same transfer left it, with its
-- transaction number, source, target and target epoch, or the lease is unexpired and held by the
-- named source at the named epoch and the target epoch is the next one. If it is granted, the lease has
-- then this transaction number, source, target and target epoch; if not, the store is as it was.
pub transfer_granted_iff :
    (t : Transfer) (now : ℕ) (s : LeaseStore)
    → (((transfer t now s).0.is_granted ≡ true) ↔ (
        ((lease_of t.cluster s).last_transaction ≡ t.transaction)
          × ((lease_of t.cluster s).last_source ≡ t.source)
          × ((lease_of t.cluster s).holder ≡ t.target)
          × ((lease_of t.cluster s).epoch ≡ t.target_epoch)
        ⊎ ((lease_of t.cluster s).holder ≡ t.source)
          × ((lease_of t.cluster s).epoch ≡ t.source_epoch)
          × (now < (lease_of t.cluster s).expires)
          × (t.target_epoch ≡ t.source_epoch + 1)))
      × (((transfer t now s).0.is_granted ≡ true)
            × ((lease_of t.cluster (transfer t now s).1).last_transaction ≡ t.transaction)
            × ((lease_of t.cluster (transfer t now s).1).last_source ≡ t.source)
            × ((lease_of t.cluster (transfer t now s).1).holder ≡ t.target)
            × ((lease_of t.cluster (transfer t now s).1).epoch ≡ t.target_epoch)
          ⊎ ((transfer t now s).0.is_granted ≡ false) × ((transfer t now s).1 ≡ s))
transfer_granted_iff t now s = (transfer_test t now s, transfer_leaves t now s)

replay_granted :
    (t : Transfer) (now : ℕ) (s : LeaseStore)
    → is_replay t (lease_of t.cluster s) ≡ true
    → ((transfer t now s).0.is_granted ≡ true)
      × ((transfer t now s).0.reason ≡ already_transferred)
      × ((transfer t now s).1 ≡ s)
unfolding transfer
replay_granted t now s h = ground arith

-- A granted transfer, sent again at any time while nothing else has happened, is granted again, as a
-- repetition, and changes nothing.
pub transfer_idempotent :
    (t : Transfer) (now later : ℕ) (s : LeaseStore)
    → (transfer t now s).0.is_granted ≡ true
    → ((transfer t later (transfer t now s).1).0.is_granted ≡ true)
      × ((transfer t later (transfer t now s).1).0.reason ≡ already_transferred)
      × ((transfer t later (transfer t now s).1).1 ≡ (transfer t now s).1)
transfer_idempotent t now later s g =
    replay_granted t later (transfer t now s).1 (transfer_records t now s g)

-- After a granted transfer to another node at the next epoch, the witness authorises the source of
-- the transfer to come back as a standby, and no other node.
pub recovery_after_transfer :
    (t : Transfer) (now : ℕ) (s : LeaseStore) (node : String)
    → (transfer t now s).0.is_granted ≡ true
    → t.source ≢ t.target
    → t.target_epoch ≡ t.source_epoch + 1
    → (authorize_recovery t.cluster node t.target t.source_epoch t.target_epoch t.transaction
          (transfer t now s).1
        ≡ true)
      ↔ (node ≡ t.source)
unfolding authorize_recovery is_replay
recovery_after_transfer t now s node g ne next =
    let r = transfer_records t now s g in
    let l = lease_of t.cluster (transfer t now s).1 in
    (
      λ h. ground (arith, str_eq_iff l.last_source t.source, str_eq_iff l.last_source node),
      λ e. rw e (ground (arith, str_eq_iff t.source t.target)),
    )

-- A node that is authorised to come back does not hold the lease, and its epoch is the one before
-- the lease's.
pub recovery_not_holder :
    (c node target : String) (e e' x : ℕ) (s : LeaseStore)
    → authorize_recovery c node target e e' x s ≡ true
    → ((lease_of c s).holder ≢ node) × ((lease_of c s).epoch ≡ e + 1)
unfolding authorize_recovery
recovery_not_holder c node target e e' x s h =
    ground (arith, str_eq_iff (lease_of c s).holder target, str_eq_iff node target)

renewal_forgets :
    (c node : String) (ttl now : ℕ) (s : LeaseStore)
    → (acquire c node ttl now s).0.is_granted ≡ true
    → (lease_of c (acquire c node ttl now s).1).last_transaction ≡ 0
unfolding acquire
renewal_forgets c node ttl now s g = grind (arith, lease_of-put_lease, str_eq_refl c)

-- Whether a request asks for a lease, and does not transfer one
unfoldable pub is_ask : Request → Bool
is_ask (ask c n ttl) = true
is_ask (hand_over t) = false

asks_forget :
    (c : String) (rs : List (Request × ℕ)) (s : LeaseStore)
    → All (λ r. is_ask r.0 ≡ true) rs
    → (lease_of c s).last_transaction ≡ 0
    → (lease_of c (serve rs s)).last_transaction ≡ 0
unfolding serve handle is_ask acquired
asks_forget c [] s a h = h
asks_forget c ((ask k n ttl, now) ∷ rs) s (_, a) h =
    asks_forget c rs (acquire k n ttl now s).1 a
      (rw (lease_of-acquire c k n ttl now s) (ground arith))
asks_forget c ((hand_over t, now) ∷ rs) s (b, a) h = absurd (cc)

-- Once a node has been granted a lease by asking for it, and as long as only further requests for
-- leases are served, whoever makes them and at whatever times, the witness authorises no recovery
-- with a positive transaction number, whatever node asks for it and whatever target it names.
pub renewal_blocks_recovery :
    (c holder node target : String) (e e' x ttl now : ℕ) (rs : List (Request × ℕ)) (s : LeaseStore)
    → (acquire c holder ttl now s).0.is_granted ≡ true
    → All (λ r. is_ask r.0 ≡ true) rs
    → 0 < x
    → authorize_recovery c node target e e' x (serve rs (acquire c holder ttl now s).1) ≡ false
unfolding authorize_recovery
renewal_blocks_recovery c holder node target e e' x ttl now rs s g a px =
    let forgotten =
      asks_forget c rs (acquire c holder ttl now s).1 a (renewal_forgets c holder ttl now s g) in
    ground (arith, forgotten)

-- A store whose process, started again over its file, would have the same leases.
abbrev pub IsSaved : LeaseStore → Type 0
IsSaved s = load s.durable s.disk ≡ s

put_lease-IsSaved :
    (c : String) (l : Lease) (s : LeaseStore)
    → s.durable ≡ true
    → IsSaved (put_lease c l s) × ((put_lease c l s).durable ≡ true)
unfolding put_lease load
put_lease-IsSaved c l s d = ground arith

handle-IsSaved :
    (r : Request) (now : ℕ) (s : LeaseStore)
    → s.durable ≡ true
    → IsSaved s
    → IsSaved (handle r now s).1 × ((handle r now s).1.durable ≡ true)
unfolding handle acquire transfer
handle-IsSaved (ask c n ttl) now s d h = grind (arith, put_lease-IsSaved)
handle-IsSaved (hand_over t) now s d h = grind (arith, put_lease-IsSaved)

-- A witness with a configured path that is stopped after any requests and started again over its
-- file has the leases that it had.
pub restart_keeps_leases :
    (rs : List (Request × ℕ)) (s : LeaseStore)
    → s.durable ≡ true
    → IsSaved s
    → load true (serve rs s).disk ≡ serve rs s
unfolding serve
restart_keeps_leases [] s d h = subst (λ b. load b s.disk ≡ s) d h
restart_keeps_leases ((r, now) ∷ rs) s d h =
    let (saved, durable) = handle-IsSaved r now s d h in
    restart_keeps_leases rs (handle r now s).1 durable saved
