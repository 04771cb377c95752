-- ===== src/Community/Permanence/Posting.antt =====
-- `reconcile_public_record` keeps what lasts.
use stageforge.Prelude.{
  ℕ, ◌≡◌, refl, String, Bool, true, false, if◌then◌else◌, Option, none, some, List, [], ◌∷◌,
}
use stageforge.Prelude.Dict.{lookup}
use stageforge.Prelude.Keeping.{insert-Keeps, map_values-Keeps}
use stageforge.Community.Records.{Proposal, Vote, Community}
use stageforge.Community.Keys.{key_of, map_values-IsKeyed}
use stageforge.Community.Publishing.{
  Posts, is_unposted, owes_vote, post_proposal, post_vote, post_all_of, post_next, post_each,
  chosen, reconcile_chosen, reconcile_public_record,
}
use stageforge.Community.Permanence.{
  SameBallot, SameBallot-refl, recorded_vote-SameBallot, recorded_vote-key_of, Settled,
  Settled-refl, recorded_proposal-Settled, Lasting, Lasting-refl, Lasting-trans,
}
use stageforge.Community.Permanence.Leading.{
  Leads, either_Leads, found_Leads, refused_Leads, gives_Leads, next_Survives,
}

either_SameBallot :
    {F : Type 0} (b : Bool) (v x : Vote F) → SameBallot v x → SameBallot v (if b then x else v)
either_SameBallot true v x s = s
either_SameBallot false v x s = SameBallot-refl v

either_Settled :
    {P : Type 0} (b : Bool) (p x : Proposal P) → Settled p x → Settled p (if b then x else p)
either_Settled true p x s = s
either_Settled false p x s = Settled-refl p

post_vote-SameBallot :
    {F : Type 0} (post : Posts) (p : String) (n : ℕ) (v : Vote F)
    → SameBallot v (post_vote post p n v)
unfolding post_vote
post_vote-SameBallot post p n v =
    either_SameBallot (owes_vote p n v) v _ (recorded_vote-SameBallot true _ v)

either_key_of :
    {F : Type 0} (b : Bool) (v x : Vote F)
    → key_of x ≡ key_of v
    → key_of (if b then x else v) ≡ key_of v
either_key_of true v x s = s
either_key_of false v x s = refl

post_vote-key_of :
    {F : Type 0} (post : Posts) (p : String) (n : ℕ) (v : Vote F)
    → key_of (post_vote post p n v) ≡ key_of v
unfolding post_vote
post_vote-key_of post p n v = either_key_of (owes_vote p n v) v _ (recorded_vote-key_of true _ v)

post_proposal-Settled :
    {P : Type 0} (post : Posts) (p : Proposal P) → Settled p (post_proposal post p)
unfolding post_proposal
post_proposal-Settled post p =
    either_Settled (is_unposted p.record_pending p.record_ref) p _
      (recorded_proposal-Settled true _ p)

module _ {F P : Type 0} where
  post_all_of-Lasting :
      (post : Posts) (key : String) (p : Proposal P) (c : Community F P)
      → lookup key c.proposals ≡ some p
      → Lasting c (post_all_of post key p c)
  unfolding post_all_of
  post_all_of-Lasting post key p c e =
      let q = post_proposal post p in
      record {
        votes =
            map_values-Keeps SameBallot (post_vote post p.id p.version)
              (post_vote-SameBallot post p.id p.version) c.votes;
        proposals =
            insert-Keeps Settled Settled-refl key q c.proposals
              (next_Survives Settled (lookup key c.proposals) p q e (post_proposal-Settled post p));
        keyed =
            map_values-IsKeyed (post_vote post p.id p.version) c.votes
              (post_vote-key_of post p.id p.version);
      }

  post_next-Leads :
      (post : Posts) (key : String) (c : Community F P) → Leads c (post_next post key c)
  unfolding post_next
  post_next-Leads post key c =
      found_Leads (lookup key c.proposals) c _ _ (λ e. refused_Leads c _)
        (λ p e. gives_Leads _ c _ (post_all_of-Lasting post key p c e))

  post_each-Lasting :
      (post : Posts) (todo : List String) (c : Community F P) → Lasting c (post_each post todo c).1
  unfolding post_each Leads
  post_each-Lasting post [] c = Lasting-refl c
  post_each-Lasting post (key ∷ todo) c =
      let d = (post_next post key c).1 in
      Lasting-trans c d _ (post_next-Leads post key c) (post_each-Lasting post todo d)

  pub reconcile_public_record-Leads :
      (post : Posts) (id : Option String) (c : Community F P)
      → Leads c (reconcile_public_record post id c)
  unfolding reconcile_public_record
  reconcile_public_record-Leads post id c =
      either_Leads c.recording c _ _ (chosen_Leads (chosen id c)) (refused_Leads c _)
    where
      chosen_Leads : (o : Option (List String)) → Leads c (reconcile_chosen post o c)
      chosen_Leads none = refused_Leads c _
      chosen_Leads (some todo) = gives_Leads _ c _ (post_each-Lasting post todo c)
