-- ===== src/Witness/Tests.antt =====
-- Runs of the witness and of its clients, and the theorems about them at concrete inputs.
use stageforge.Prelude.Int.{negsuc}
use stageforge.Prelude.{
  ℕ, ◌≤◌, ◌<◌, ◌≡◌, ◌≢◌, refl, ◌⊎◌, String, str_eq, ◌↔◌, ◌+◌, str_eq_iff, true, false, List, [],
  ◌∷◌, arith, none, some, length, filter,
}
use stageforge.Prelude.Dict.{lookup, insert}
use stageforge.Witness.Store.{
  LeaseStore, Transfer, Reply, acquire, transfer, load, authorize_recovery, find_lease, clamp_ttl,
  put_lease, already_transferred,
}
use stageforge.Witness.Fencing.{
  ask, hand_over, handle, serve, lease_of, epoch_fences_holder, live_lease_kept, after,
}
use stageforge.Witness.Handover.{
  transfer_granted_iff, transfer_idempotent, recovery_after_transfer, renewal_blocks_recovery,
  is_ask, restart_keeps_leases,
}
use stageforge.Witness.Quorum.{
  WitnessResult, Client, no_grant, quorum_lease, parse_result, quorum_size, valid, is_configured,
  Identity, answer_of, positive, response_identity, acquire_quorum,
}
use stageforge.Prelude.Text.{is_set}
use stageforge.Witness.Quorum.Selection.{supports, quorum_lease-IsSupported, quorum_lease-longest}
use stageforge.Witness.Quorum.Answers.{IsGrant, parse_result_granted}
use stageforge.Witness.Quorum.{no_id}
use stageforge.Witness.Cluster.{Cluster, Step, Reach, IsTimely, served, hears, at_node, list_of}
use stageforge.Witness.Cluster.Exclusion.{IsFresh, one_valid_lease}

abbrev empty_store : LeaseStore
empty_store = record { durable = true; leases = []; disk = none }

-- The main node asks at 1000 for three seconds, and gives its lease to the spare node at 2000.
abbrev main_holds : LeaseStore
main_holds = serve ((ask "show" "main" 3000, 1000) ∷ []) empty_store

abbrev handover : Transfer
handover = record {
  cluster = "show";
  source = "main";
  target = "spare";
  source_epoch = 1;
  target_epoch = 2;
  transaction = 7;
  ttl = 3000;
}

abbrev spare_holds : LeaseStore
spare_holds = (transfer handover 2000 main_holds).1

main_ne_spare : ◌≢◌ {A = String} "main" "spare"
unfolding str_eq
main_ne_spare e = cc ((str_eq_iff "main" "spare").1 e)

main_lease :
    find_lease "show" main_holds.leases
    ≡ record { holder = "main"; epoch = 1; expires = 4000; last_transaction = 0; last_source = "" }
unfolding serve handle acquire find_lease put_lease clamp_ttl lookup insert str_eq
main_lease = refl

denied_then_granted :
    ((acquire "show" "spare" 3000 3999 main_holds).0.is_granted ≡ false)
    × ((acquire "show" "spare" 3000 4000 main_holds).0.epoch ≡ 2)
unfolding serve handle acquire find_lease put_lease clamp_ttl lookup insert str_eq
denied_then_granted = (refl, refl)

epoch_fences_holder_example :
    ((handle (ask "show" "main" 3000) 1000 empty_store).0.epoch
      < (handle
          (hand_over handover)
          2000
          (after (ask "show" "main" 3000) 1000 [] empty_store)).0.epoch)
    ⊎ (((handle (ask "show" "main" 3000) 1000 empty_store).0.epoch
          ≡ (handle
              (hand_over handover)
              2000
              (after (ask "show" "main" 3000) 1000 [] empty_store)).0.epoch)
        × ((handle (ask "show" "main" 3000) 1000 empty_store).0.holder
            ≡ (handle
                (hand_over handover)
                2000
                (after (ask "show" "main" 3000) 1000 [] empty_store)).0.holder))
unfolding serve handle acquire transfer find_lease put_lease clamp_ttl lookup insert str_eq
epoch_fences_holder_example =
    epoch_fences_holder (ask "show" "main" 3000) (hand_over handover) 1000 2000 [] empty_store refl
      refl refl

live_lease_kept_example :
    ((lease_of "show" (handle (ask "show" "spare" 3000) 2000 main_holds).1).holder
      ≡ (lease_of "show" main_holds).holder)
    ⊎ ((t : Transfer) × (ask "show" "spare" 3000 ≡ hand_over t)
        × (t.cluster ≡ "show")
        × (t.source ≡ (lease_of "show" main_holds).holder)
        × (t.source_epoch ≡ (lease_of "show" main_holds).epoch)
        × ((lease_of "show" (handle (ask "show" "spare" 3000) 2000 main_holds).1).holder
            ≡ t.target))
unfolding serve handle acquire find_lease put_lease clamp_ttl lookup insert str_eq
live_lease_kept_example =
    live_lease_kept "show" (ask "show" "spare" 3000) 2000 main_holds refl (omega arith)

transfer_granted_iff_example :
    (((transfer handover 2000 main_holds).0.is_granted ≡ true) ↔ (
      ((lease_of "show" main_holds).last_transaction ≡ 7)
        × ((lease_of "show" main_holds).last_source ≡ "main")
        × ((lease_of "show" main_holds).holder ≡ "spare")
        × ((lease_of "show" main_holds).epoch ≡ 2)
      ⊎ ((lease_of "show" main_holds).holder ≡ "main")
        × ((lease_of "show" main_holds).epoch ≡ 1)
        × (2000 < (lease_of "show" main_holds).expires)
        × (◌≡◌ {A = ℕ} 2 (1 + 1))))
    × (((transfer handover 2000 main_holds).0.is_granted ≡ true)
          × ((lease_of "show" spare_holds).last_transaction ≡ 7)
          × ((lease_of "show" spare_holds).last_source ≡ "main")
          × ((lease_of "show" spare_holds).holder ≡ "spare")
          × ((lease_of "show" spare_holds).epoch ≡ 2)
        ⊎ ((transfer handover 2000 main_holds).0.is_granted ≡ false) × (spare_holds ≡ main_holds))
transfer_granted_iff_example = transfer_granted_iff handover 2000 main_holds

transfer_idempotent_example :
    ((transfer handover 2500 spare_holds).0.is_granted ≡ true)
    × ((transfer handover 2500 spare_holds).0.reason ≡ already_transferred)
    × ((transfer handover 2500 spare_holds).1 ≡ spare_holds)
unfolding serve handle acquire transfer find_lease put_lease clamp_ttl lookup insert str_eq
transfer_idempotent_example = transfer_idempotent handover 2000 2500 main_holds refl

recovery_after_transfer_example :
    (authorize_recovery "show" "main" "spare" 1 2 7 spare_holds ≡ true)
    ↔ (◌≡◌ {A = String} "main" "main")
unfolding serve handle acquire transfer find_lease put_lease clamp_ttl lookup insert str_eq
recovery_after_transfer_example =
    recovery_after_transfer handover 2000 main_holds "main" refl main_ne_spare refl

renewal_blocks_recovery_example :
    authorize_recovery "show" "main" "spare" 1 2 7
      (serve ((ask "show" "main" 3000, 3500) ∷ []) (acquire "show" "spare" 3000 3000 spare_holds).1)
    ≡ false
unfolding serve handle acquire transfer find_lease put_lease clamp_ttl lookup insert str_eq is_ask
renewal_blocks_recovery_example =
    renewal_blocks_recovery "show" "spare" "main" "spare" 1 2 7 3000 3000
      ((ask "show" "main" 3000, 3500) ∷ []) spare_holds refl (refl, tt) (omega arith)

restart_keeps_leases_example :
    load true
      (serve ((ask "show" "main" 3000, 1000) ∷ (hand_over handover, 2000) ∷ []) empty_store).disk
    ≡ serve ((ask "show" "main" 3000, 1000) ∷ (hand_over handover, 2000) ∷ []) empty_store
unfolding load
restart_keeps_leases_example =
    restart_keeps_leases ((ask "show" "main" 3000, 1000) ∷ (hand_over handover, 2000) ∷ [])
      empty_store refl refl

abbrev anonymous : Identity
anonymous = record { witness_id = no_id; failure_domain = no_id; server_ms = none }

-- Three witnesses; the third has not answered.
abbrev granted_until : ℕ → WitnessResult
granted_until l = record (no_grant "") {
  granted = true;
  epoch = 1;
  expires = l;
  holder = some "main";
}

abbrev round : List WitnessResult
round = granted_until 4000 ∷ no_grant "" ∷ granted_until 5000 ∷ []

quorum_lease-IsSupported_example :
    (1000 < 4000) × (0 < 2) × (2 ≤ length (filter (supports "main" 1000 4000) round))
unfolding quorum_lease str_eq
quorum_lease-IsSupported_example = quorum_lease-IsSupported "main" 2 1000 round 4000 1 refl

quorum_lease-longest_example : 3500 ≤ 4000
unfolding quorum_lease str_eq
quorum_lease-longest_example =
    quorum_lease-longest "main" 2 1000 3500 round 4000 1 refl (omega arith)

abbrev main_reply : Reply
main_reply = (acquire "show" "main" 3000 1000 empty_store).0

parse_result_granted_example :
    IsGrant "show" "main" none
      (answer_of main_reply)
      (parse_result "http://w" "show" "main" none none (answer_of main_reply) anonymous 1000)
    × Unit {0}
unfolding acquire find_lease put_lease clamp_ttl lookup insert str_eq parse_result response_identity
    positive
parse_result_granted_example =
    parse_result_granted "http://w" "show" "main" none none (answer_of main_reply) anonymous 1000
      refl

-- A response whose epoch is negative, or no integer, is no grant.
bad_epoch-refused :
    ((parse_result "http://w" "show" "main" none none
        (record (answer_of main_reply) { epoch = some (negsuc 2) })
        anonymous
        1000).granted
      ≡ false)
    × ((parse_result "http://w" "show" "main" none none
          (record (answer_of main_reply) { epoch = none })
          anonymous
          1000).granted
        ≡ false)
unfolding acquire find_lease put_lease clamp_ttl lookup insert str_eq parse_result response_identity
    positive
bad_epoch-refused = (refl, refl)

-- Three witnesses with no leases, and every client just started.
abbrev client_of : String → Client
client_of a = record {
  urls = "http://w0" ∷ "http://w1" ∷ "http://w2" ∷ [];
  independent_quorum = none;
  authenticated = true;
  cluster_id = "show";
  node_id = a;
  ttl_ms = 3000;
  last_results = [];
  lease_epoch = 0;
  lease_expires = 0;
  last_attempt = 0;
  suspended = false;
  fence_configured = true;
  fence_present = false;
}

abbrev started : Cluster
started = record {
  now = 1000;
  readings = λ a i. 0;
  stores = λ i. empty_store;
  answers = λ a i. no_grant "";
  clients = client_of;
}

started-IsFresh : (a : String) → IsFresh 2 started a
unfolding quorum_size
started-IsFresh a = record { named = refl; sized = refl; no_lease = refl; no_answer = λ i. refl }

abbrev serve_main : ℕ → ℕ → Cluster → Cluster
serve_main i at s =
    hears "main" i
      (parse_result "" "show" "main" none none
        (answer_of (acquire "show" "main" 3000 at (s.stores i)).0) anonymous 1010)
      (served "main" i at (λ x. (acquire "show" "main" 3000 at x).1) s)

abbrev end_round : Cluster → Cluster
end_round s = record s {
  clients =
      at_node s.clients "main"
        (acquire_quorum 1020 (list_of 3 (s.answers "main")) (s.clients "main"));
}

abbrev elected : Cluster
elected = end_round (serve_main 2 1005 (serve_main 0 999 started))

unfoldable elected-Reach : Reach "show" 3 (λ a. 3000) started elected
elected-Reach =
    Reach.next
      (Reach.next (Reach.next Reach.here (Step.serve "main" 0 999 1010 "" none anonymous))
        (Step.serve "main" 2 1005 1010 "" none anonymous))
      (Step.conclude "main" 1020)

elected-IsTimely : IsTimely "show" 3 (λ a. 3000) 20 elected-Reach
unfolding IsTimely elected-Reach str_eq
elected-IsTimely = (((tt, (omega arith, omega arith)), (omega arith, omega arith)), tt)

-- The main node's lease is valid after a round that a majority has answered.
elected_main : valid 100 1020 (elected.clients "main") ≡ true
unfolding valid is_configured acquire_quorum quorum_lease quorum_size list_of parse_result
    response_identity acquire find_lease put_lease clamp_ttl lookup insert str_eq positive
elected_main = refl

elected_later : valid 100 1015 (elected.clients "main") ≡ true
unfolding valid is_configured acquire_quorum quorum_lease quorum_size list_of parse_result
    response_identity acquire find_lease put_lease clamp_ttl lookup insert str_eq positive
elected_later = refl

one_valid_lease_example : ◌≡◌ {A = String} "main" "main"
unfolding str_eq is_set
one_valid_lease_example =
    one_valid_lease "show" 3 2 20 100 (λ a. 3000) started elected "main" "main" 1020 1015
      (omega arith) (omega arith) started-IsFresh elected-Reach elected-IsTimely refl refl
      (omega arith) (omega arith) elected_main elected_later
