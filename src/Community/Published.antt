-- ===== src/Community/Published.antt =====
-- What `reconcile_public_record` achieves where every append succeeds
use stageforge.Prelude.{
  ℕ, ◌+◌, ◌≡◌, refl, sym, ap, subst, ◌∙◌, String, str_eq_refl, Bool, true, false, if◌then◌else◌,
  some, [], ◌∷◌, arith,
}
use stageforge.Prelude.Dict.{Dict, lookup, lookup-insert}
use stageforge.Prelude.Keeping.{map_values}
use stageforge.Community.Records.{Proposal, Invitation, Vote, Community}
use stageforge.Community.Ballots.{done}
use stageforge.Community.Proposals.{is_given}
use stageforge.Community.Publishing.{
  Report, report_of, Posts, Posted, proposal_version, vote_invitation, ballot, is_unposted,
  owes_invitation, owes_vote, post_proposal, post_invitation, post_vote, count_values, owed, posted,
  owed_all, post_all_of, post_next, post_each, chosen, reconcile_chosen, reconcile_public_record,
}

count_values-map :
    {A : Type 0} (test : A → Bool) (f : A → A) (d : Dict A)
    → ((a : A) → test (f a) ≡ false)
    → count_values test (map_values f d) ≡ 0
unfolding count_values map_values
count_values-map test f [] h = refl
count_values-map test f ((k, a) ∷ d) h =
    let rest = count_values-map test f d h in rw (h a) (omega (arith, rest))

no_more : (n : ℕ) → n + 0 ≡ n
no_more n = omega arith

abbrev unneeded : Report
unneeded = record { required = false; published = 0; pending = 0 }

module _ (post : Posts) (reach : (k : Posted) (s : String) → is_given (post k s) ≡ true) where
  paid_proposal :
      {P : Type 0} (p : Proposal P)
      → is_unposted (post_proposal post p).record_pending (post_proposal post p).record_ref ≡ false
  unfolding post_proposal
  paid_proposal p = ground (arith, reach proposal_version p.id)

  paid_invitation :
      (p : String) (n : ℕ) (i : Invitation)
      → owes_invitation p n (post_invitation post p n i) ≡ false
  unfolding post_invitation owes_invitation
  paid_invitation p n i = ground (arith, reach vote_invitation i.id)

  paid_vote :
      {F : Type 0} (p : String) (n : ℕ) (v : Vote F) → owes_vote p n (post_vote post p n v) ≡ false
  unfolding post_vote owes_vote
  paid_vote p n v = ground (arith, reach ballot v.id)

  post_proposal-id : {P : Type 0} (p : Proposal P) → (post_proposal post p).id ≡ p.id
  unfolding post_proposal
  post_proposal-id p = ground arith

  post_proposal-version : {P : Type 0} (p : Proposal P) → (post_proposal post p).version ≡ p.version
  unfolding post_proposal
  post_proposal-version p = ground arith

  module _ {F P : Type 0} where
    paid_all :
        (key : String) (p : Proposal P) (c : Community F P)
        → owed (post_all_of post key p c) (post_proposal post p) ≡ 0
    unfolding owed post_all_of
    paid_all key p c =
        rw (paid_proposal p, post_proposal-id p, post_proposal-version p)
          (omega (
            arith,
            count_values-map (owes_invitation p.id p.version) (post_invitation post p.id p.version)
                c.invitations (paid_invitation p.id p.version),
            count_values-map (owes_vote p.id p.version) (post_vote post p.id p.version) c.votes
                (paid_vote p.id p.version),
          ))

    module _ (id : String) (p : Proposal P) (c : Community F P)
        (found : lookup id c.proposals ≡ some p) where
      one_chosen : chosen (some id) c ≡ some (id ∷ [])
      unfolding chosen
      one_chosen = rw (found, chosen) refl

      one_posted : post_next post id c ≡ (posted post c p, post_all_of post id p c)
      unfolding post_next
      one_posted = rw (found, post_next) refl

      each_posted : post_each post (id ∷ []) c ≡ (posted post c p + 0, post_all_of post id p c)
      unfolding post_each
      each_posted = ap (λ r. (r.0 + 0, r.1)) one_posted

      posted_found : lookup id (post_all_of post id p c).proposals ≡ some (post_proposal post p)
      unfolding post_all_of
      posted_found =
          lookup-insert id id (post_proposal post p) c.proposals ∙ rw (str_eq_refl id) refl

      one_paid : owed_all (id ∷ []) (post_all_of post id p c) ≡ 0
      unfolding owed_all
      one_paid = rw (posted_found, owed_all) (omega (arith, paid_all id p c))

      reported :
          done (report_of (id ∷ []) (post_each post (id ∷ []) c))
          ≡ done (record { required = true; published = posted post c p; pending = 0 })
      reported =
          ap (λ r. done (report_of (id ∷ []) r)) each_posted
          ∙ (ap
                (λ n. done (record {
                  required = true;
                  published = n;
                  pending = owed_all (id ∷ []) (post_all_of post id p c);
                }))
                (no_more (posted post c p))
              ∙ ap
                  (λ n. done (record { required = true; published = posted post c p; pending = n }))
                  one_paid)

      -- Where the public record takes every append, `reconcile_public_record` of a proposal that is there leaves
      -- nothing pending on it.
      pub reconcile_completes :
          c.recording ≡ true
          → (reconcile_public_record post (some id) c).0
            ≡ done (record { required = true; published = posted post c p; pending = 0 })
      unfolding reconcile_public_record reconcile_chosen
      reconcile_completes on =
          subst
            (λ b.
              (if b then reconcile_chosen post (chosen (some id) c) c else (done unneeded, c)).0
              ≡ done (record { required = true; published = posted post c p; pending = 0 }))
            (sym on) (rw (one_chosen, reconcile_chosen) reported)
