-- ===== src/Community/Permanence/Histories.antt =====
-- What lasts through every sequence of operations
use stageforge.Prelude.{
  ℕ, ◌≤◌, ◌≡◌, ◌≢◌, ◌∙◌, sym, subst, refl, Bool, true, false, not, ◌||◌, String, Option, none, some,
  List, [], ◌∷◌, arith, str_eq_refl,
}
use mathlib.Core.Bool.{false≢true}
use stageforge.Prelude.Dict.{lookup, lookup-insert}
use stageforge.Prelude.Keeping.{Survives, Keeps-Survives, Survives-map}
use stageforge.Community.Records.{
  Arithmetic, InviteStatus, pending_send, sent, delivery_failed, voted, expired, Invitation,
  adopted, Proposal, Vote, Change, Community, PolicyPatch,
}
use stageforge.Community.Ballots.{Outcome, done, refused, deliver_vote}
use stageforge.Community.Proposals.{is_given}
use stageforge.Community.Accounts.{adopted_change, applied, mark_for, mark_change_applied}
use stageforge.Community.Tally.{votes_of}
use stageforge.Community.Keys.{IsKeyed, count_user, count_user-bound}
use stageforge.Community.History.{
  Event, account_given, sessions_revoked, policy_patched, proposed, edited, asked, delivered_to,
  token_cast, account_cast, change_marked, policy_applied, reconciled, deliverable, happen, run,
}
use stageforge.Community.Permanence.{SameBallot, Settled, Lasting, Lasting-refl, Lasting-trans}
use stageforge.Community.Permanence.Leading.{Leads}
use stageforge.Community.Permanence.Ballots.{
  prepare_votes-Leads, deliver_vote-Lasting, cast_vote-Leads, cast_account_vote-Leads,
}
use stageforge.Community.Permanence.Changes.{
  upsert_account-Leads, revoke_account_sessions-Leads, create_proposal-Leads, adopted_change-found,
  mark_change_applied-Leads, patch_policy-Lasting, apply_ratified_governance_policy-Leads,
}
use stageforge.Community.Permanence.Edits.{update_proposal-Leads}
use stageforge.Community.Permanence.Posting.{reconcile_public_record-Leads}

pub record Enacted {P : Type 0} (p q : Proposal P) : Type 0 where
  pub status : q.status ≡ adopted
  pub version : q.version ≡ p.version
  pub title : q.title ≡ p.title
  pub description : q.description ≡ p.description
  pub scope : q.scope ≡ p.scope
  pub change : q.change ≡ p.change
  pub applied : (not (is_given p.applied_at) || is_given q.applied_at) ≡ true

stays_applied : (a b : Bool) → (a ≡ true → b ≡ true) → (not a || b) ≡ true
stays_applied true b f = f refl
stays_applied false b f = refl

Settled-Enacted : {P : Type 0} (p q : Proposal P) → p.status ≡ adopted → Settled p q → Enacted p q
Settled-Enacted p q h s = record {
  status = s.status h;
  version = s.version h;
  title = s.title h;
  description = s.description h;
  scope = s.scope h;
  change = s.change h;
  applied = stays_applied (is_given p.applied_at) (is_given q.applied_at) (s.applied h);
}

Enacted-applied :
    {P : Type 0} (p q : Proposal P)
    → Survives Enacted (some p) (some q)
    → is_given p.applied_at ≡ true
    → is_given q.applied_at ≡ true
unfolding Survives
Enacted-applied p q s g = subst (λ b. (not b || is_given q.applied_at) ≡ true) g s.applied

status_Lasting :
    {F P : Type 0} (s : InviteStatus) (c d : Community F P)
    → Lasting c d
    → Lasting c (elim s as (λ z. Community F P) [
      | pending_send ↦ d
      | sent ↦ c
      | delivery_failed ↦ c
      | voted ↦ c
      | expired ↦ c
    ])
status_Lasting pending_send c d l = l
status_Lasting sent c d l = Lasting-refl c
status_Lasting delivery_failed c d l = Lasting-refl c
status_Lasting voted c d l = Lasting-refl c
status_Lasting expired c d l = Lasting-refl c

deliverable-Lasting :
    {F P : Type 0} (o : Option Invitation) (c d : Community F P)
    → Lasting c d
    → Lasting c (deliverable o c d)
deliverable-Lasting none c d l = Lasting-refl c
deliverable-Lasting (some i) c d l = status_Lasting i.status c d l

-- What is asked for again, of a proposal that is adopted and applied
applied_refuses :
    {F P : Type 0} (c : Community F P) (id : String) (p : Proposal P) (r : Proposal P × Change P)
    → Survives Enacted (some p) (lookup id c.proposals)
    → is_given p.applied_at ≡ true
    → adopted_change id c ≢ done r
applied_refuses c id p r s g e =
    let f = adopted_change-found id c r.0 r.1 e in
    let t = subst (λ o. Survives Enacted (some p) o) f.0 s in
    false≢true (sym f.1.1.0 ∙ Enacted-applied p r.0 t g)

-- What `mark_change_applied` leaves when it succeeds
marked_via :
    {F P G : Type 0} (now : ℕ) (id : String) (c : Community F P) (change : Change P)
    (o : Outcome (Proposal P × Change P))
    → adopted_change id c ≡ o
    → (mark_for now id o c).0 ≡ done change
    → ((p : Proposal P)
        → lookup id (mark_for now id o c).1.proposals ≡ some p
        → p.status ≡ adopted
        → is_given p.applied_at ≡ true
        → G)
    → G
unfolding mark_for
marked_via now id c change (refused r) f e k = ground arith
marked_via now id c change (done q) f e k =
    k (applied now q.1 q.0)
      (rw (lookup-insert id id (applied now q.1 q.0) c.proposals, str_eq_refl id) refl)
      (adopted_change-found id c q.0 q.1 f).1.0 refl

module _ {F P : Type 0} (arithmetic : Arithmetic F) (change_hash : String → P → String)
    (read : P → PolicyPatch F) where
  happen-Lasting :
      (e : Event F P) (now : ℕ) (c : Community F P)
      → Lasting c (happen arithmetic change_hash read e now c)
  unfolding happen Leads
  happen-Lasting (account_given id email active) now c = upsert_account-Leads id email active c
  happen-Lasting (sessions_revoked id) now c = revoke_account_sessions-Leads id c
  happen-Lasting (policy_patched q) now c = patch_policy-Lasting arithmetic q c
  happen-Lasting (proposed fresh d ref) now c = create_proposal-Leads change_hash now fresh d ref c
  happen-Lasting (edited id e ratified ref) now c =
      update_proposal-Leads arithmetic change_hash now id e ratified ref c
  happen-Lasting (asked id asks window) now c = prepare_votes-Leads id asks window c
  happen-Lasting (delivered_to id good ref) now c =
      deliverable-Lasting (lookup id c.invitations) c (deliver_vote id good now ref c)
        (deliver_vote-Lasting id good now ref c)
  happen-Lasting (token_cast token choice account token_only ref) now c =
      cast_vote-Leads arithmetic now token choice account token_only ref c
  happen-Lasting (account_cast id choice user ref) now c =
      cast_account_vote-Leads arithmetic now id choice user ref c
  happen-Lasting (change_marked id) now c = mark_change_applied-Leads now id c
  happen-Lasting (policy_applied id) now c =
      apply_ratified_governance_policy-Leads arithmetic read now id c
  happen-Lasting (reconciled id post) now c = reconcile_public_record-Leads post id c

  pub run-Lasting :
      (es : List (ℕ × Event F P)) (c : Community F P)
      → Lasting c (run arithmetic change_hash read es c)
  unfolding run
  run-Lasting [] c = Lasting-refl c
  run-Lasting ((now, e) ∷ es) c =
      let d = happen arithmetic change_hash read e now c in
      Lasting-trans c d _ (happen-Lasting e now c) (run-Lasting es d)

  -- A vote that is in the state stays in it, whatever is done afterwards: its identifier has a vote for the
  -- same proposal and version, of the same account, with the same choice, cast at the same time.
  pub run_keeps_vote :
      (es : List (ℕ × Event F P)) (c : Community F P) (id : String) (v : Vote F)
      → lookup id c.votes ≡ some v
      → Survives SameBallot (some v) (lookup id (run arithmetic change_hash read es c).votes)
  run_keeps_vote es c id v found =
      let d = run arithmetic change_hash read es c in
      Keeps-Survives SameBallot c.votes d.votes id v (run-Lasting es c).votes found

  -- An adopted proposal stays, whatever is done afterwards: it is adopted, with the same version, texts and
  -- change, and if its change is applied, it stays applied.
  pub run_keeps_adopted :
      (es : List (ℕ × Event F P)) (c : Community F P) (id : String) (p : Proposal P)
      → lookup id c.proposals ≡ some p
      → p.status ≡ adopted
      → Survives Enacted (some p) (lookup id (run arithmetic change_hash read es c).proposals)
  run_keeps_adopted es c id p found h =
      let d = run arithmetic change_hash read es c in
      Survives-map Settled Enacted p (lookup id d.proposals) (λ q s. Settled-Enacted p q h s)
        (Keeps-Survives Settled c.proposals d.proposals id p (run-Lasting es c).proposals found)

  -- The change of a proposal is applied at most once: when `mark_change_applied` has succeeded for it, no
  -- later `adopted_change` gives a change of that proposal out, whatever is done in between.
  pub applied_once :
      (es : List (ℕ × Event F P)) (now : ℕ) (id : String) (c : Community F P) (change : Change P)
      (r : Proposal P × Change P)
      → (mark_change_applied now id c).0 ≡ done change
      → adopted_change id (run arithmetic change_hash read es (mark_change_applied now id c).1)
        ≢ done r
  unfolding mark_change_applied
  applied_once es now id c change r e =
      marked_via now id c change (adopted_change id c) refl e (λ p found h g.
        let d = (mark_change_applied now id c).1 in
        applied_refuses (run arithmetic change_hash read es d) id p r
          (run_keeps_adopted es d id p found h) g)

  -- Where every vote stands under its key, no two under one, an account has at most one vote on each version of
  -- a proposal, whatever is done afterwards.
  pub run_one_vote :
      (es : List (ℕ × Event F P)) (c : Community F P) (p u : String) (n : ℕ)
      → IsKeyed c.votes
      → count_user u (votes_of p n (run arithmetic change_hash read es c).votes) ≤ 1
  run_one_vote es c p u n i =
      let d = run arithmetic change_hash read es c in
      count_user-bound p u n d.votes ((run-Lasting es c).keyed i)
