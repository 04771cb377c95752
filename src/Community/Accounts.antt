-- ===== src/Community/Accounts.antt =====
-- The members' accounts, the policy and the adopted changes of backend/community_governance.py. How a
-- policy is read from the payload of a change is a parameter.
use stageforge.Prelude.{
  ℕ, ◌+◌, ◌==◌, max, String, str_eq, Bool, true, false, not, ◌&&◌, ◌||◌, if◌then◌else◌, Option,
  none, some, [], ◌∷◌,
}
use stageforge.Prelude.Text.{clip, strip, is_set}
use stageforge.Prelude.Dict.{Dict, lookup, insert}
use stageforge.Community.Records.{
  Arithmetic, Account, Change, Proposal, Policy, PolicyPatch, Community, adopted, given, patched,
}
use stageforge.Community.Ballots.{
  Outcome, done, refused, no_proposal, no_account, bad_account, not_adopted, already_applied,
  no_change, other_kind, changed,
}
use stageforge.Community.Proposals.{is_given, same_status}

-- `'@' in s`
unfoldable pub has_at : String → Bool
has_at String.[] = false
has_at (String.◌∷◌ c s) = str_eq (String.◌∷◌ c "") "@" || has_at s

unfoldable pub new_account : String → String → Option Bool → Account
new_account id email active = record {
  id = id;
  email = email;
  active = given active true;
  generation = 1;
}

abbrev same_bool : Bool → Bool → Bool
same_bool true b = b
same_bool false b = not b

-- A change of the address or of the activity ends the account's sessions.
unfoldable pub next_account : String → Option Bool → Account → Account
next_account email active a =
    let kept = str_eq email a.email && same_bool (given active a.active) a.active in
    record a {
      email = email;
      active = given active a.active;
      generation = if kept then max 1 a.generation else max 1 a.generation + 1;
    }

unfoldable pub upserted : String → String → Option Bool → Option Account → Account
unfolding new_account next_account
upserted id email active none = new_account id email active
upserted id email active (some old) = next_account email active old

abbrev pub applied : {P : Type 0} → ℕ → Change P → Proposal P → Proposal P
applied now change p = record p { applied_at = some now; applied_hash = some change.hash }

abbrev pub is_empty {ℓ} : {A : Type ℓ} → Dict A → Bool
is_empty [] = true
is_empty (e ∷ d) = false

module _ {F P : Type 0} where
  -- `upsert_account`
  unfoldable pub upsert_account :
      String → String → Option Bool → Community F P → Outcome Account × Community F P
  unfolding upserted has_at
  upsert_account raw_id raw_email active c =
      let id = clip 128 (strip raw_id) in
      let email = clip 320 (strip raw_email) in
      if not (is_set id) || not (has_at email)
      then (refused bad_account, c)
      else let a = upserted id email active (lookup id c.accounts) in
        (done a, changed (record c { accounts = insert id a c.accounts }))

  -- `authenticated_account`, of an account that has its `authGeneration`
  unfoldable pub authenticated_account : String → Community F P → Outcome Account
  authenticated_account raw_id c = elim (lookup (strip raw_id) c.accounts) [
    | none ↦ refused no_account
    | some a ↦ if a.active then done a else refused no_account
  ]

  -- `revoke_account_sessions`
  unfoldable pub revoke_account_sessions : String → Community F P → Outcome Account × Community F P
  revoke_account_sessions raw_id c = elim (lookup (strip raw_id) c.accounts) [
    | none ↦ (refused no_account, c)
    | some a ↦
        let b = record a { generation = max 1 a.generation + 1 } in
        (done b, changed (record c { accounts = insert (strip raw_id) b c.accounts }))
  ]

  -- `adopted_change`
  unfoldable pub adopted_change : String → Community F P → Outcome (Proposal P × Change P)
  adopted_change id c = elim (lookup id c.proposals) [
    | none ↦ refused no_proposal
    | some p ↦
        if not (same_status p.status adopted)
        then refused not_adopted
        else if is_given p.applied_at
        then refused already_applied
        else elim p.change [ none ↦ refused no_change | some change ↦ done (p, change) ]
  ]

  abbrev pub store_applied : ℕ → String → Proposal P → Change P → Community F P → Community F P
  store_applied now id p change c =
      changed (record c { proposals = insert id (applied now change p) c.proposals })

  unfoldable pub mark_for :
      ℕ
      → String
      → Outcome (Proposal P × Change P)
      → Community F P
      → Outcome (Change P) × Community F P
  mark_for now id (refused r) c = (refused r, c)
  mark_for now id (done q) c = (done q.1, store_applied now id q.0 q.1 c)

  -- `mark_change_applied`
  unfoldable pub mark_change_applied :
      ℕ → String → Community F P → Outcome (Change P) × Community F P
  unfolding mark_for adopted_change
  mark_change_applied now id c = mark_for now id (adopted_change id c) c

  -- `bootstrap_policy_mutation_allowed`
  unfoldable pub bootstrap_policy_mutation_allowed : Community F P → Bool
  bootstrap_policy_mutation_allowed c =
      is_empty c.proposals && (is_empty c.invitations && is_empty c.votes)

unfoldable pub same_policy : {F : Type 0} → Arithmetic F → Policy F → Policy F → Bool
same_policy arithmetic a b =
    a.zero_day == b.zero_day
    && (a.default_window_hours == b.default_window_hours
        && (a.min_raw_votes == b.min_raw_votes
            && (arithmetic.equal a.min_approval b.min_approval
                && (arithmetic.equal a.min_durable b.min_durable
                    && (same_bool a.require_closed b.require_closed
                        && (same_bool a.require_account b.require_account
                            && a.urgent_days == b.urgent_days))))))

module _ {F P : Type 0} (arithmetic : Arithmetic F) where
  -- `patch_policy`
  unfoldable pub patch_policy : PolicyPatch F → Community F P → Community F P
  unfolding same_policy patched
  patch_policy q c =
      let known = patched arithmetic q c.policy in
      if same_policy arithmetic known c.policy then c else changed (record c { policy = known })

  -- `apply_ratified_governance_policy`
  unfoldable pub apply_ratified_governance_policy :
      (P → PolicyPatch F) → ℕ → String → Community F P → Outcome (Policy F) × Community F P
  unfolding adopted_change patch_policy
  apply_ratified_governance_policy read now id c = elim (adopted_change id c) [
    | refused r ↦ (refused r, c)
    | done q ↦
        if not (str_eq q.1.kind "community-governance-policy")
        then (refused other_kind, c)
        else let d = patch_policy (read q.1.payload) c in
          (done d.policy, store_applied now id q.0 q.1 d)
  ]
