-- ===== src/Community/Permanence/Ballots.antt =====
-- The operations on invitations and votes keep what lasts.
use stageforge.Prelude.Text.{strip}
use stageforge.Prelude.{
  ℕ, ◌==◌, refl, sym, String, Bool, not, ◌&&◌, Option, none, some, List, [], ◌∷◌,
}
use stageforge.Prelude.Int.{ℤ}
use stageforge.Prelude.Dict.{lookup}
use stageforge.Community.Records.{
  Arithmetic, Choice, InviteStatus, pending_send, sent, delivery_failed, voted, expired, Proposal,
  Invitation, Community, bounded,
}
use stageforge.Community.Tally.{in_window}
use stageforge.Community.Ballots.{
  Ask, prepare_votes, prepare_all, deliver_vote, is_open, recorded_vote,
}
use stageforge.Community.Casting.{
  find_token, same_user, active_invitations, new_vote, store_vote, cast_in_window, cast_for_status,
  cast_for, cast_vote, cast_single, cast_open, cast_account_vote,
}
use stageforge.Community.Permanence.{
  SameBallot, Lasting, Lasting-refl, unchanged-Lasting, one_vote-Lasting, recorded_vote-key_of,
}
use stageforge.Community.Permanence.Leading.{
  Leads, either_Leads, found_Leads, refused_Leads, unchanged-Leads, gives_Leads, new_Survives,
}

module _ {F P : Type 0} where
  pub prepare_votes-Leads :
      (id : String) (asks : List Ask) (window : Option ℤ) (c : Community F P)
      → Leads c (prepare_votes id asks window c)
  unfolding prepare_votes
  prepare_votes-Leads id asks window c =
      found_Leads (lookup id c.proposals) c _ _ (λ e. refused_Leads c _)
        (λ p e. either_Leads (not (is_open p.status)) c _ _ (refused_Leads c _) (
          either_Leads
            (prepare_all p (bounded 1 8760 window c.policy.default_window_hours) asks c.accounts
              c.invitations).0
            c _ _ (unchanged-Leads _ c _ refl refl) (unchanged-Leads _ c _ refl refl)))

  -- The sending of one invitation
  pub sent_Lasting :
      (o : Option Invitation) (c : Community F P) (f : Invitation → Community F P)
      → ((i : Invitation) → Lasting c (f i))
      → Lasting c (elim o as (λ z. Community F P) [ none ↦ c | some i ↦ f i ])
  sent_Lasting none c f q = Lasting-refl c
  sent_Lasting (some i) c f q = q i

  pub deliver_vote-Lasting :
      (id : String) (good : Bool) (at : ℕ) (ref : Option String) (c : Community F P)
      → Lasting c (deliver_vote id good at ref c)
  unfolding deliver_vote
  deliver_vote-Lasting id good at ref c =
      sent_Lasting (lookup id c.invitations) c _ (λ i. unchanged-Lasting c _ refl refl)

module _ {F P : Type 0} (arithmetic : Arithmetic F) where
  store_vote-Leads :
      (now : ℕ) (choice : Choice) (i : Invitation) (user : String) (p : Proposal P)
      (ref : Option String) (c : Community F P)
      → Leads c (store_vote arithmetic now choice i user p ref c)
  unfolding store_vote new_vote
  store_vote-Leads now choice i user p ref c =
      let v = new_vote arithmetic now choice i user p c.policy in
      found_Leads (lookup v.id c.votes) c _ _
        (λ e. gives_Leads _ c _ (
          one_vote-Lasting v.id (recorded_vote c.recording ref v) c _
            (new_Survives SameBallot (lookup v.id c.votes) (recorded_vote c.recording ref v) e)
            (sym (recorded_vote-key_of c.recording ref v)) refl refl))
        (λ w e. refused_Leads c _)

  cast_in_window-Leads :
      (now : ℕ) (choice : Choice) (i : Invitation) (p : Proposal P) (account : Option String)
      (token_only : Bool) (ref : Option String) (c : Community F P)
      → Leads c (cast_in_window arithmetic now choice i p account token_only ref c)
  unfolding cast_in_window
  cast_in_window-Leads now choice i p account token_only ref c =
      either_Leads (not (in_window now i.sent_at i.expires_at)) c _ _
        (unchanged-Leads _ c _ refl refl)
        (either_Leads
          ((c.policy.require_account && not token_only) && not (same_user account i.user)) c _ _
          (refused_Leads c _) (store_vote-Leads now choice i i.user p ref c))

  cast_for_status-Leads :
      (s : InviteStatus) (now : ℕ) (choice : Choice) (i : Invitation) (account : Option String)
      (token_only : Bool) (ref : Option String) (c : Community F P)
      → Leads c (cast_for_status arithmetic s now choice i account token_only ref c)
  unfolding cast_for_status
  cast_for_status-Leads voted now choice i account token_only ref c = refused_Leads c _
  cast_for_status-Leads pending_send now choice i account token_only ref c = refused_Leads c _
  cast_for_status-Leads delivery_failed now choice i account token_only ref c = refused_Leads c _
  cast_for_status-Leads expired now choice i account token_only ref c = refused_Leads c _
  cast_for_status-Leads sent now choice i account token_only ref c =
      found_Leads (lookup i.proposal c.proposals) c _ _ (λ e. refused_Leads c _)
        (λ p e. either_Leads (not (p.version == i.version)) c _ _ (refused_Leads c _) (
          either_Leads (not (is_open p.status)) c _ _ (refused_Leads c _)
            (cast_in_window-Leads now choice i p account token_only ref c)))

  pub cast_vote-Leads :
      (now : ℕ) (token : String) (choice : Choice) (account : Option String) (token_only : Bool)
      (ref : Option String) (c : Community F P)
      → Leads c (cast_vote arithmetic now token choice account token_only ref c)
  unfolding cast_vote cast_for
  cast_vote-Leads now token choice account token_only ref c =
      found_Leads (find_token token c.invitations) c _ _ (λ e. refused_Leads c _)
        (λ i e. cast_for_status-Leads i.status now choice i account token_only ref c)

  cast_single-Leads :
      (now : ℕ) (choice : Choice) (is : List Invitation) (user : String) (p : Proposal P)
      (ref : Option String) (c : Community F P)
      → Leads c (cast_single arithmetic now choice is user p ref c)
  unfolding cast_single
  cast_single-Leads now choice [] user p ref c = refused_Leads c _
  cast_single-Leads now choice (i ∷ []) user p ref c = store_vote-Leads now choice i user p ref c
  cast_single-Leads now choice (i ∷ j ∷ is) user p ref c = refused_Leads c _

  pub cast_account_vote-Leads :
      (now : ℕ) (id : String) (choice : Choice) (account_id : String) (ref : Option String)
      (c : Community F P)
      → Leads c (cast_account_vote arithmetic now id choice account_id ref c)
  unfolding cast_account_vote cast_open
  cast_account_vote-Leads now id choice account_id ref c =
      let user = strip account_id in
      found_Leads (lookup user c.accounts) c _ _ (λ e. refused_Leads c _)
        (λ a e. either_Leads (not a.active) c _ _ (refused_Leads c _) (
          found_Leads (lookup id c.proposals) c _ _ (λ f. refused_Leads c _)
            (λ p f. either_Leads (not (is_open p.status)) c _ _ (refused_Leads c _) (
              cast_single-Leads now choice
                (active_invitations now p.id user p.version c.invitations) user p ref c))))
