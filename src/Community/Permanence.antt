-- ===== src/Community/Permanence.antt =====
-- What no operation of the community's governance changes: a vote that is cast, and the text and the
-- change of a proposal that is adopted.
use stageforge.Prelude.{
  ℕ, ◌≡◌, refl, ◌∙◌, subst, sym, String, str_eq, Bool, Bool-cases, true, false, if◌then◌else◌,
  Option, none, some, List, [], ◌∷◌, inl, inr, arith,
}
use stageforge.Prelude.Dict.{lookup, insert}
use stageforge.Prelude.Keeping.{
  Survives, Keeps, Keeps-refl, Keeps-trans, insert-Keeps, map_values, map_values-Keeps,
}
use stageforge.Community.Records.{
  Arithmetic, ProposalStatus, adopted, Choice, Change, Proposal, Invitation, Vote, Community,
  PolicyPatch,
}
use stageforge.Community.Ballots.{Refusal, Outcome, done, refused, recorded_vote, changed}
use stageforge.Community.Casting.{
  store_vote, new_vote, cast_in_window, cast_for, cast_vote, cast_single, cast_open,
  cast_account_vote,
}
use stageforge.Community.Proposals.{is_given, recorded_proposal}
use stageforge.Community.Keys.{key_of, IsKeyed, insert-IsKeyed}
use stageforge.Community.Publishing.{Posts, post_vote, post_proposal, post_all_of, post_each}
mod Leading
mod Ballots
mod Changes
mod Edits
mod Posting
pub mod Histories

-- One ballot, though its state on the public record may differ
pub record SameBallot {F : Type 0} (v w : Vote F) : Type 0 where
  pub proposal : w.proposal ≡ v.proposal
  pub version : w.version ≡ v.version
  pub user : w.user ≡ v.user
  pub choice : w.choice ≡ v.choice
  pub cast_at : w.cast_at ≡ v.cast_at

-- What an adopted proposal keeps
pub record Settled {P : Type 0} (p q : Proposal P) : Type 0 where
  pub status : p.status ≡ adopted → q.status ≡ adopted
  pub version : p.status ≡ adopted → q.version ≡ p.version
  pub title : p.status ≡ adopted → q.title ≡ p.title
  pub description : p.status ≡ adopted → q.description ≡ p.description
  pub scope : p.status ≡ adopted → q.scope ≡ p.scope
  pub change : p.status ≡ adopted → q.change ≡ p.change
  pub applied : p.status ≡ adopted → is_given p.applied_at ≡ true → is_given q.applied_at ≡ true

pub record Lasting {F P : Type 0} (c d : Community F P) : Type 0 where
  pub votes : Keeps SameBallot c.votes d.votes
  pub proposals : Keeps Settled c.proposals d.proposals
  pub keyed : IsKeyed c.votes → IsKeyed d.votes

module _ {F : Type 0} where
  pub SameBallot-refl : (v : Vote F) → SameBallot v v
  SameBallot-refl v = record {
    proposal = refl;
    version = refl;
    user = refl;
    choice = refl;
    cast_at = refl;
  }

  SameBallot-trans : (a b c : Vote F) → SameBallot a b → SameBallot b c → SameBallot a c
  SameBallot-trans a b c p q = record {
    proposal = q.proposal ∙ p.proposal;
    version = q.version ∙ p.version;
    user = q.user ∙ p.user;
    choice = q.choice ∙ p.choice;
    cast_at = q.cast_at ∙ p.cast_at;
  }

  pub recorded_vote-SameBallot :
      (b : Bool) (r : Option String) (v : Vote F) → SameBallot v (recorded_vote b r v)
  recorded_vote-SameBallot false r v = SameBallot-refl v
  recorded_vote-SameBallot true none v = record {
    proposal = refl;
    version = refl;
    user = refl;
    choice = refl;
    cast_at = refl;
  }
  recorded_vote-SameBallot true (some r) v = record {
    proposal = refl;
    version = refl;
    user = refl;
    choice = refl;
    cast_at = refl;
  }

  pub recorded_vote-key_of :
      (b : Bool) (r : Option String) (v : Vote F) → key_of (recorded_vote b r v) ≡ key_of v
  recorded_vote-key_of false r v = refl
  recorded_vote-key_of true none v = refl
  recorded_vote-key_of true (some r) v = refl

module _ {P : Type 0} where
  pub Settled-refl : (p : Proposal P) → Settled p p
  Settled-refl p = record {
    status = λ h. h;
    version = λ h. refl;
    title = λ h. refl;
    description = λ h. refl;
    scope = λ h. refl;
    change = λ h. refl;
    applied = λ h g. g;
  }

  Settled-trans : (a b c : Proposal P) → Settled a b → Settled b c → Settled a c
  Settled-trans a b c p q = record {
    status = λ h. q.status (p.status h);
    version = λ h. q.version (p.status h) ∙ p.version h;
    title = λ h. q.title (p.status h) ∙ p.title h;
    description = λ h. q.description (p.status h) ∙ p.description h;
    scope = λ h. q.scope (p.status h) ∙ p.scope h;
    change = λ h. q.change (p.status h) ∙ p.change h;
    applied = λ h g. q.applied (p.status h) (p.applied h g);
  }

  pub recorded_proposal-Settled :
      (b : Bool) (r : Option String) (p : Proposal P) → Settled p (recorded_proposal b r p)
  recorded_proposal-Settled false r p = Settled-refl p
  recorded_proposal-Settled true none p = record {
    status = λ h. h;
    version = λ h. refl;
    title = λ h. refl;
    description = λ h. refl;
    scope = λ h. refl;
    change = λ h. refl;
    applied = λ h g. g;
  }
  recorded_proposal-Settled true (some r) p = record {
    status = λ h. h;
    version = λ h. refl;
    title = λ h. refl;
    description = λ h. refl;
    scope = λ h. refl;
    change = λ h. refl;
    applied = λ h g. g;
  }

module _ {F P : Type 0} where
  pub Lasting-refl : (c : Community F P) → Lasting c c
  Lasting-refl c = record {
    votes = Keeps-refl SameBallot SameBallot-refl c.votes;
    proposals = Keeps-refl Settled Settled-refl c.proposals;
    keyed = λ i. i;
  }

  pub Lasting-trans : (a b c : Community F P) → Lasting a b → Lasting b c → Lasting a c
  Lasting-trans a b c p q = record {
    votes = Keeps-trans SameBallot SameBallot-trans a.votes b.votes c.votes p.votes q.votes;
    proposals =
        Keeps-trans Settled Settled-trans a.proposals b.proposals c.proposals p.proposals
          q.proposals;
    keyed = λ i. q.keyed (p.keyed i);
  }

  -- An operation on other things
  pub unchanged-Lasting :
      (c d : Community F P) → c.votes ≡ d.votes → c.proposals ≡ d.proposals → Lasting c d
  unchanged-Lasting c d v p = record {
    votes =
        subst (λ x. Keeps SameBallot c.votes x) v (Keeps-refl SameBallot SameBallot-refl c.votes);
    proposals =
        subst (λ x. Keeps Settled c.proposals x) p (Keeps-refl Settled Settled-refl c.proposals);
    keyed = λ i. subst IsKeyed v i;
  }

  -- An operation on one proposal
  pub one_proposal-Lasting :
      (k : String) (p : Proposal P) (c d : Community F P)
      → Survives Settled (lookup k c.proposals) (some p)
      → c.votes ≡ d.votes
      → insert k p c.proposals ≡ d.proposals
      → Lasting c d
  one_proposal-Lasting k p c d s v e = record {
    votes =
        subst (λ x. Keeps SameBallot c.votes x) v (Keeps-refl SameBallot SameBallot-refl c.votes);
    proposals =
        subst (λ x. Keeps Settled c.proposals x) e
          (insert-Keeps Settled Settled-refl k p c.proposals s);
    keyed = λ i. subst IsKeyed v i;
  }

  -- An operation on one vote
  pub one_vote-Lasting :
      (k : String) (w : Vote F) (c d : Community F P)
      → Survives SameBallot (lookup k c.votes) (some w)
      → k ≡ key_of w
      → insert k w c.votes ≡ d.votes
      → c.proposals ≡ d.proposals
      → Lasting c d
  one_vote-Lasting k w c d s h e p = record {
    votes =
        subst (λ x. Keeps SameBallot c.votes x) e
          (insert-Keeps SameBallot SameBallot-refl k w c.votes s);
    proposals =
        subst (λ x. Keeps Settled c.proposals x) p (Keeps-refl Settled Settled-refl c.proposals);
    keyed = λ i. subst IsKeyed e (insert-IsKeyed k w c.votes h i);
  }
