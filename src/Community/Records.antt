-- ===== src/Community/Records.antt =====
-- The data of backend/community_governance.py, its policy, and the age of a proposal. Times are
-- microseconds. Floating-point numbers are a parameter, with the operations that the source uses; so is
-- the payload of a change. What a member's account, an invitation or a vote holds for display, for the
-- mail or for the commitment to a choice is left out.
use stageforge.Prelude.{ℕ, ◌-◌, min, max, Bool, if◌then◌else◌, not, Option, none, some, String}
use stageforge.Prelude.Int.{ℤ, pos_part}
use stageforge.Prelude.Dict.{Dict}

pub record Arithmetic (F : Type 0) : Type 0 where
  pub of_nat : ℕ → F
  pub half : F
  pub plus : F → F → F
  pub minus : F → F → F
  pub times : F → F → F
  pub divide : F → F → F
  pub round_to : ℕ → F → F
  pub less : F → F → Bool
  pub equal : F → F → Bool

pub data Choice : Type 0 where
  for_it against_it abstaining : Choice

pub data ProposalStatus : Type 0 where
  open_ closed adopted rejected superseded : ProposalStatus

pub data InviteStatus : Type 0 where
  pending_send sent delivery_failed voted expired : InviteStatus

pub record Account : Type 0 where
  pub id : String
  pub email : String
  pub active : Bool
  pub generation : ℕ

-- `change`, with its hash
pub record Change (P : Type 0) : Type 0 where
  pub kind : String
  pub payload : P
  pub hash : String

pub record Proposal (P : Type 0) : Type 0 where
  pub id : String
  pub version : ℕ
  pub title : String
  pub description : String
  pub scope : String
  pub created_at : ℕ
  pub updated_at : Option ℕ
  pub status : ProposalStatus
  pub provisional_expires : Option ℕ
  pub change : Option (Change P)
  pub applied_at : Option ℕ
  pub applied_hash : Option String
  pub record_pending : Bool
  pub record_ref : Option String
  pub ratification_ref : Option String

pub record Invitation : Type 0 where
  pub id : String
  pub proposal : String
  pub version : ℕ
  pub user : String
  pub status : InviteStatus
  pub window_hours : ℕ
  pub sent_at : Option ℕ
  pub expires_at : Option ℕ
  pub token_hash : String
  pub voted_at : Option ℕ
  pub record_pending : Bool
  pub record_ref : Option String

pub record Vote (F : Type 0) : Type 0 where
  pub id : String
  pub proposal : String
  pub version : ℕ
  pub invitation : String
  pub user : String
  pub choice : Choice
  pub cast_at : ℕ
  pub hype : F
  pub durable : F
  pub record_pending : Bool
  pub record_ref : Option String

pub record Policy (F : Type 0) : Type 0 where
  pub zero_day : ℕ
  pub default_window_hours : ℕ
  pub min_raw_votes : ℕ
  pub min_approval : F
  pub min_durable : F
  pub require_closed : Bool
  pub require_account : Bool
  pub urgent_days : ℕ

-- The governance state; `recording` is whether a public record is attached.
pub record Community (F P : Type 0) : Type 0 where
  pub policy : Policy F
  pub accounts : Dict Account
  pub proposals : Dict (Proposal P)
  pub invitations : Dict Invitation
  pub votes : Dict (Vote F)
  pub revision : ℕ
  pub recording : Bool

-- A change of the policy; `none` leaves a setting as it is.
pub record PolicyPatch (F : Type 0) : Type 0 where
  pub zero_day : Option ℤ
  pub default_window_hours : Option ℤ
  pub min_raw_votes : Option ℤ
  pub min_approval : Option F
  pub min_durable : Option F
  pub require_closed : Option Bool
  pub require_account : Option Bool
  pub urgent_days : Option ℤ

abbrev pub given {ℓ} : {A : Type ℓ} → Option A → A → A
given none d = d
given (some a) d = a

-- `max(low, min(high, value))`, of the new value if there is one
abbrev pub bounded : ℕ → ℕ → Option ℤ → ℕ → ℕ
bounded low high none d = max low (min high d)
bounded low high (some a) d = max low (min high (pos_part a))

-- `max(1, value)`
abbrev pub at_least_one : Option ℤ → ℕ → ℕ
at_least_one none d = max 1 d
at_least_one (some a) d = max 1 (pos_part a)

module _ {F : Type 0} (arithmetic : Arithmetic F) where
  unfoldable pub greater_of : F → F → F
  greater_of a b = if arithmetic.less a b then b else a

  unfoldable pub lesser_of : F → F → F
  lesser_of a b = if arithmetic.less b a then b else a

  abbrev pub number : ℕ → F
  number n = arithmetic.of_nat n

  -- `patch_policy`, but for the revision
  unfoldable pub patched : PolicyPatch F → Policy F → Policy F
  unfolding greater_of lesser_of
  patched q p = record {
    zero_day = bounded 2 3650 q.zero_day p.zero_day;
    default_window_hours = bounded 1 8760 q.default_window_hours p.default_window_hours;
    min_raw_votes = at_least_one q.min_raw_votes p.min_raw_votes;
    min_approval =
        greater_of arithmetic.half (lesser_of (number 1) (given q.min_approval p.min_approval));
    min_durable = greater_of (number 0) (given q.min_durable p.min_durable);
    require_closed = given q.require_closed p.require_closed;
    require_account = given q.require_account p.require_account;
    urgent_days = bounded 1 365 q.urgent_days p.urgent_days;
  }

  -- `elapsed_days` of `hype_value`, which are 0 before the proposal was created
  unfoldable pub elapsed_days : ℕ → ℕ → F
  unfolding greater_of
  elapsed_days created now = greater_of (number 0) (
      arithmetic.divide (arithmetic.divide (number (now - created)) (number 1000000))
        (number 86400))

  -- `hype_value`
  unfoldable pub hype_value : ℕ → ℕ → ℕ → F
  unfolding greater_of lesser_of elapsed_days
  hype_value zero_day created now =
      let days = elapsed_days created now in
      let span = greater_of (number 1) (number (zero_day - 1)) in
      if not (arithmetic.less (number 1) days)
      then number 1
      else arithmetic.round_to 9 (
          greater_of (number 0) (
            lesser_of (number 1) (
              arithmetic.minus (number 1)
                (arithmetic.divide (arithmetic.minus days (number 1)) span))))

  -- `durable_fraction`
  unfoldable pub durable_fraction : ℕ → ℕ → ℕ → F
  unfolding hype_value
  durable_fraction zero_day created now =
      arithmetic.round_to 9 (arithmetic.minus (number 1) (hype_value zero_day created now))
