-- ===== src/Community/Permanence/Changes.antt =====
-- The operations on accounts, on the policy, on new proposals and on adopted changes keep what lasts.
use stageforge.Prelude.{
  ℕ, ◌≡◌, refl, String, str_eq, Bool, false, not, ◌||◌, Option, none, some, arith, inl, inr,
  Bool-cases, subst, sym,
}
use stageforge.Prelude.Text.{clip, strip, is_set}
use stageforge.Prelude.Dict.{lookup}
use stageforge.Community.Records.{
  Arithmetic, Change, Proposal, Community, PolicyPatch, adopted, patched,
}
use stageforge.Community.Ballots.{Outcome, done, refused}
use stageforge.Community.Proposals.{
  Draft, is_given, change_record, new_proposal, recorded_proposal, store_proposal, create_proposal,
  or_fresh,
}
use stageforge.Community.Accounts.{
  upsert_account, has_at, revoke_account_sessions, adopted_change, applied, mark_for,
  mark_change_applied, store_applied, same_policy, patch_policy, apply_ratified_governance_policy,
}
use stageforge.Community.Permanence.{
  Settled, Lasting, Lasting-refl, Lasting-trans, unchanged-Lasting, one_proposal-Lasting,
}
use stageforge.Community.Permanence.Leading.{
  Leads, either_Leads, either_Lasting, found_Leads, outcome_Leads, refused_Leads, unchanged-Leads,
  gives_Leads, new_Survives, next_Survives,
}

applied-Settled :
    {P : Type 0} (now : ℕ) (change : Change P) (p : Proposal P) → Settled p (applied now change p)
applied-Settled now change p = record {
  status = λ h. h;
  version = λ h. refl;
  title = λ h. refl;
  description = λ h. refl;
  scope = λ h. refl;
  change = λ h. refl;
  applied = λ h g. refl;
}

module _ {F P : Type 0} where
  pub upsert_account-Leads :
      (id email : String) (active : Option Bool) (c : Community F P)
      → Leads c (upsert_account id email active c)
  unfolding upsert_account
  upsert_account-Leads id email active c =
      either_Leads (not (is_set (clip 128 (strip id))) || not (has_at (clip 320 (strip email)))) c _
        _ (refused_Leads c _) (unchanged-Leads _ c _ refl refl)

  pub revoke_account_sessions-Leads :
      (id : String) (c : Community F P) → Leads c (revoke_account_sessions id c)
  unfolding revoke_account_sessions
  revoke_account_sessions-Leads id c =
      found_Leads (lookup (strip id) c.accounts) c _ _ (λ e. refused_Leads c _)
        (λ a e. unchanged-Leads _ c _ refl refl)

  module _ (change_hash : String → P → String) where
    store_proposal-Leads :
        (now : ℕ) (id : String) (d : Draft P) (ref : Option String) (c : Community F P)
        → lookup id c.proposals ≡ none
        → Leads c (store_proposal change_hash now id d ref c)
    unfolding store_proposal
    store_proposal-Leads now id d ref c e =
        found_Leads (change_record change_hash d.change) c _ _ (λ f. refused_Leads c _)
          (λ change f.
            let p =
              recorded_proposal c.recording ref
                (new_proposal now id d change c.policy.urgent_days) in
            gives_Leads _ c _ (
              one_proposal-Lasting id p c _ (new_Survives Settled (lookup id c.proposals) p e) refl
                refl))

    pub create_proposal-Leads :
        (now : ℕ) (fresh : String) (d : Draft P) (ref : Option String) (c : Community F P)
        → Leads c (create_proposal change_hash now fresh d ref c)
    unfolding create_proposal
    create_proposal-Leads now fresh d ref c =
        let id = clip 160 (strip (or_fresh d.id fresh)) in
        either_Leads (not (is_set (clip 240 (strip d.title)))) c _ _ (refused_Leads c _) (
          found_Leads (lookup id c.proposals) c _ _ (λ e. store_proposal-Leads now id d ref c e)
            (λ p e. refused_Leads c _))

  -- The change that is handed out is that of the proposal, which is adopted and not applied.
  pub adopted_change-found :
      (id : String) (c : Community F P) (p : Proposal P) (change : Change P)
      → adopted_change id c ≡ done (p, change)
      → (lookup id c.proposals ≡ some p)
        × ((p.status ≡ adopted) × ((is_given p.applied_at ≡ false) × (p.change ≡ some change)))
  unfolding adopted_change
  adopted_change-found id c p change e = ground arith

  applied-Lasting :
      (now : ℕ) (id : String) (q : Proposal P × Change P) (c : Community F P)
      → lookup id c.proposals ≡ some q.0
      → Lasting c (store_applied now id q.0 q.1 c)
  applied-Lasting now id q c e =
      let r = applied now q.1 q.0 in
      one_proposal-Lasting id r c _
        (next_Survives Settled (lookup id c.proposals) q.0 r e (applied-Settled now q.1 q.0)) refl
        refl

  mark_for-Leads :
      (now : ℕ) (id : String) (o : Outcome (Proposal P × Change P)) (c : Community F P)
      → adopted_change id c ≡ o
      → Leads c (mark_for now id o c)
  unfolding mark_for
  mark_for-Leads now id (refused r) c e = refused_Leads c _
  mark_for-Leads now id (done q) c e =
      gives_Leads _ c _ (applied-Lasting now id q c (adopted_change-found id c q.0 q.1 e).0)

  pub mark_change_applied-Leads :
      (now : ℕ) (id : String) (c : Community F P) → Leads c (mark_change_applied now id c)
  unfolding mark_change_applied
  mark_change_applied-Leads now id c = mark_for-Leads now id (adopted_change id c) c refl

module _ {F P : Type 0} (arithmetic : Arithmetic F) where
  pub patch_policy-Lasting :
      (q : PolicyPatch F) (c : Community F P) → Lasting c (patch_policy arithmetic q c)
  unfolding patch_policy
  patch_policy-Lasting q c =
      either_Lasting (same_policy arithmetic (patched arithmetic q c.policy) c.policy) c _ _
        (Lasting-refl c) (unchanged-Lasting c _ refl refl)

  patch_policy-proposals :
      (q : PolicyPatch F) (c : Community F P)
      → (patch_policy arithmetic q c).proposals ≡ c.proposals
  unfolding patch_policy
  patch_policy-proposals q c =
      elim (Bool-cases (same_policy arithmetic (patched arithmetic q c.policy) c.policy)) [
        | inl same ↦ rw same refl
        | inr other ↦ rw other refl
      ]

  pub apply_ratified_governance_policy-Leads :
      (read : P → PolicyPatch F) (now : ℕ) (id : String) (c : Community F P)
      → Leads c (apply_ratified_governance_policy arithmetic read now id c)
  unfolding apply_ratified_governance_policy
  apply_ratified_governance_policy-Leads read now id c =
      outcome_Leads (adopted_change id c) c _ _ (λ r. refused_Leads c _)
        (λ q e.
          either_Leads (not (str_eq q.1.kind "community-governance-policy")) c _ _
            (refused_Leads c _)
            (let d = patch_policy arithmetic (read q.1.payload) c in
              gives_Leads _ c _ (
                Lasting-trans c d _ (patch_policy-Lasting (read q.1.payload) c) (
                  applied-Lasting now id q d (
                    subst (λ x. lookup id x ≡ some q.0)
                      (sym (patch_policy-proposals (read q.1.payload) c))
                      (adopted_change-found id c q.0 q.1 e).0)))))
