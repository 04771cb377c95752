-- ===== src/Community/Tests.antt =====
-- One proposal, one member and one vote, and the theorems about them. Numbers are thousandths.
use stageforge.Prelude.{
  ℕ, ◌+◌, ◌-◌, ◌*◌, ◌/◌, ◌==◌, ltb, ◌≤◌, ◌≡◌, ◌≢◌, refl, String, str_eq, true, false, none, some,
  List, [], ◌∷◌,
}
use stageforge.Prelude.Text.{strip, lower_is, is_set, clip}
use stageforge.Prelude.Dict.{lookup, insert}
use stageforge.Prelude.Keeping.{Survives}
use stageforge.Community.Records.{
  Arithmetic, for_it, open_, adopted, sent, Account, Change, Proposal, Invitation, Vote, Policy,
  PolicyPatch, Community, durable_fraction,
}
use stageforge.Community.Tally.{votes_of, tally_of, count_choice}
use stageforge.Community.Ballots.{done}
use stageforge.Community.Proposals.{
  ProposalEdit, object, change_record, read_status, is_material, is_frozen,
}
use stageforge.Community.Editing.{
  update_proposal, edit_proposal, edit_after, edit_text, store_edit, restatus, move_to, adopt_when,
}
use stageforge.Community.Adoption.{IsReady}
use stageforge.Community.Ratification.Gate.{update_adopts, update_adopts_unvoted}
use stageforge.Community.Accounts.{adopted_change, mark_change_applied}
use stageforge.Community.Publishing.{Posts, reconcile_public_record, posted}
use stageforge.Community.Published.{reconcile_completes}
use stageforge.Community.History.{Event, run}
use stageforge.Community.Keys.{IsKeyed, count_user}
use stageforge.Community.Permanence.{SameBallot}
use stageforge.Community.Permanence.Histories.{
  Enacted, run_keeps_vote, run_keeps_adopted, applied_once, run_one_vote,
}

abbrev thousandths : Arithmetic ℕ
thousandths = record {
  of_nat = λ n. n * 1000;
  half = 500;
  plus = λ a b. a + b;
  minus = λ a b. a - b;
  times = λ a b. a * b / 1000;
  divide = λ a b. a * 1000 / b;
  round_to = λ n a. a;
  less = ltb;
  equal = λ a b. a == b;
}

-- The digest of a change is its kind, and its payload a text.
abbrev kind_hash : String → String → String
kind_hash kind payload = kind

abbrev no_patch : String → PolicyPatch ℕ
no_patch s = record {
  zero_day = none;
  default_window_hours = none;
  min_raw_votes = none;
  min_approval = none;
  min_durable = none;
  require_closed = none;
  require_account = none;
  urgent_days = none;
}

abbrev one_enough : Policy ℕ
one_enough = record {
  zero_day = 2;
  default_window_hours = 1;
  min_raw_votes = 1;
  min_approval = 600;
  min_durable = 0;
  require_closed = false;
  require_account = false;
  urgent_days = 30;
}

abbrev ana : Account
ana = record { id = "ana"; email = "ana@x"; active = true; generation = 1 }

abbrev louder : Change String
louder = record { kind = "mix"; payload = "louder"; hash = "mix" }

abbrev proposal : Proposal String
proposal = record {
  id = "p";
  version = 1;
  title = "Mix";
  description = "";
  scope = "platform-change";
  created_at = 0;
  updated_at = none;
  status = open_;
  provisional_expires = none;
  change = some louder;
  applied_at = none;
  applied_hash = none;
  record_pending = false;
  record_ref = none;
  ratification_ref = none;
}

abbrev invitation : Invitation
invitation = record {
  id = "i";
  proposal = "p";
  version = 1;
  user = "ana";
  status = sent;
  window_hours = 1;
  sent_at = some 10;
  expires_at = some 3600000010;
  token_hash = "t";
  voted_at = none;
  record_pending = false;
  record_ref = none;
}

abbrev vote : Vote ℕ
vote = record {
  id = "vote-p-ana-v1";
  proposal = "p";
  version = 1;
  invitation = "i";
  user = "ana";
  choice = for_it;
  cast_at = 20;
  hype = 1000;
  durable = 0;
  record_pending = false;
  record_ref = none;
}

abbrev invited : Community ℕ String
invited = record {
  policy = one_enough;
  accounts = ("ana", ana) ∷ [];
  proposals = ("p", proposal) ∷ [];
  invitations = ("i", invitation) ∷ [];
  votes = [];
  revision = 1;
  recording = false;
}

abbrev has_voted : Community ℕ String
has_voted = record invited { votes = ("vote-p-ana-v1", vote) ∷ [] }

abbrev enacted : Community ℕ String
enacted = record has_voted { proposals = ("p", record proposal { status = adopted }) ∷ [] }

-- A vote by the account, and one by the token
abbrev two_casts : List (ℕ × Event ℕ String)
two_casts =
    (20, Event.account_cast "p" for_it "ana" none)
    ∷ (21, Event.token_cast "t" for_it none false none)
    ∷ []

run_keeps_vote_example :
    Survives SameBallot
      (some vote)
      (lookup "vote-p-ana-v1" (run thousandths kind_hash no_patch two_casts has_voted).votes)
unfolding lookup str_eq
run_keeps_vote_example =
    run_keeps_vote thousandths kind_hash no_patch two_casts has_voted "vote-p-ana-v1" vote refl

run_one_vote_example :
    count_user "ana" (votes_of "p" 1 (run thousandths kind_hash no_patch two_casts invited).votes)
    ≤ 1
unfolding IsKeyed
run_one_vote_example = run_one_vote thousandths kind_hash no_patch two_casts invited "p" "ana" 1 tt

run_keeps_adopted_example :
    Survives Enacted
      (some (record proposal { status = adopted }))
      (lookup "p" (run thousandths kind_hash no_patch two_casts enacted).proposals)
unfolding lookup str_eq
run_keeps_adopted_example =
    run_keeps_adopted thousandths kind_hash no_patch two_casts enacted "p"
      (record proposal { status = adopted }) refl refl

applied_once_example :
    adopted_change "p"
      (run thousandths kind_hash no_patch two_casts (mark_change_applied 30 "p" enacted).1)
    ≢ done (record proposal { status = adopted }, louder)
unfolding mark_change_applied adopted_change lookup str_eq
applied_once_example =
    applied_once thousandths kind_hash no_patch two_casts 30 "p" enacted louder
      (record proposal { status = adopted }, louder) refl

abbrev every_post : Posts
every_post k s = some s

abbrev on_record : Community ℕ String
on_record = record has_voted { recording = true }

reconcile_completes_example :
    (reconcile_public_record every_post (some "p") on_record).0
    ≡ done
        (record { required = true; published = posted every_post on_record proposal; pending = 0 })
unfolding lookup str_eq
reconcile_completes_example =
    reconcile_completes every_post (λ k s. refl) "p" proposal on_record refl refl

abbrev adopting_edit : ProposalEdit String
adopting_edit = record {
  status = some "adopted";
  title = none;
  description = none;
  scope = none;
  change = none;
}

update_adopts_example : IsReady thousandths 100 proposal has_voted
unfolding update_proposal edit_proposal edit_after edit_text store_edit restatus move_to adopt_when
    read_status is_material is_frozen tally_of strip lower_is lookup insert str_eq votes_of
    count_choice durable_fraction
update_adopts_example =
    update_adopts thousandths kind_hash 100 "p" adopting_edit none none has_voted proposal refl refl
      (record proposal { status = adopted }) refl refl

update_adopts_unvoted_example :
    (update_proposal thousandths kind_hash 100 "p"
      (record {
        status = some "adopted";
        title = none;
        description = none;
        scope = none;
        change = some (object "mute" (some "all"));
      })
      none
      none
      has_voted).0
    ≡ done (record proposal {
      status = adopted;
      change = some (record { kind = "mute"; payload = "all"; hash = "mute" });
      applied_at = none;
      version = 2;
      updated_at = some 100;
    })
unfolding tally_of change_record strip is_set clip lookup str_eq votes_of count_choice
    durable_fraction
update_adopts_unvoted_example =
    update_adopts_unvoted thousandths kind_hash 100 "p" (object "mute" (some "all"))
      (some (record { kind = "mute"; payload = "all"; hash = "mute" })) none none proposal has_voted
      refl refl refl refl refl
