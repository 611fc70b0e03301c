-- ===== src/Mapper/Records.antt =====
-- Labels and vote records of src/libs/proposalMapper.ts, and what the mapper takes from outside: the
-- printing of dates and big integers, the clock and the reading of the references out of a
-- proposal's metadata.
use text.Mathlib.Text.{◌==◌ as str_eq}
use cgov_api.Prelude.{
  ℕ, Bool, true, false, Option, none, some, String, List, ◌or_else◌, ◌or_maybe◌, if◌then◌else◌,
}
use cgov_api.Governance.{
  GovernanceType, info_action, treasury_withdrawals, new_constitution, hard_fork_initiation,
  protocol_parameter_change, no_confidence, update_committee, ProposalStatus, active, ratified,
  enacted, expired, dropped, closed, VoteType, yes_vote, no_vote, abstain_vote, VoterType, drep,
  spo, cc,
}
use cgov_api.Mapper.Votes.{Vote, resolve_voter_id, resolve_voter_name}

unfoldable pub format_governance_type : Option GovernanceType → String
format_governance_type none = "Unknown"
format_governance_type (some info_action) = "Info Action"
format_governance_type (some treasury_withdrawals) = "Treasury Withdrawals"
format_governance_type (some new_constitution) = "New Constitution"
format_governance_type (some hard_fork_initiation) = "Hard Fork Initiation"
format_governance_type (some protocol_parameter_change) = "Protocol Parameter Change"
format_governance_type (some no_confidence) = "No Confidence"
format_governance_type (some update_committee) = "Update Committee"

unfoldable pub format_status : ProposalStatus → String
format_status active = "Active"
format_status ratified = "Ratified"
format_status enacted = "Enacted"
format_status expired = "Expired"
format_status dropped = "Dropped"
format_status closed = "Closed"

pub format_voter_type : VoterType → String
format_voter_type drep = "DRep"
format_voter_type spo = "SPO"
format_voter_type cc = "CC"

pub format_vote_choice : Option VoteType → String
format_vote_choice (some yes_vote) = "Yes"
format_vote_choice (some no_vote) = "No"
format_vote_choice (some abstain_vote) = "Abstain"
format_vote_choice none = "Abstain"

-- `vote.voterType === VoterType.DREP`, and so on.
unfoldable pub same_voter_type : VoterType → VoterType → Bool
same_voter_type drep drep = true
same_voter_type spo spo = true
same_voter_type cc cc = true
same_voter_type _ _ = false

unfoldable pub is_voter : VoterType → Vote → Bool
unfolding same_voter_type
is_voter k v = same_voter_type v.voter_type k

-- A field that is set where the text is not empty.
truthy_text : Option String → Option String
truthy_text none = none
truthy_text (some s) = if str_eq s "" then none else some s

pub record VoteRecord : Type 0 where
  pub tx_hash : String
  pub voter_type : String
  pub voter_id : String
  pub voter_name : Option String
  pub choice : String
  pub voting_power : Option String
  pub rationale : Option String
  pub anchor_url : Option String
  pub anchor_hash : Option String
  pub voted_at : String

-- What the mapper takes from outside of its file.
pub record Runtime : Type 0 where
  -- `bigint.toString()`, of a number of lovelace or of an identifier
  pub print : ℕ → String
  -- `date.toISOString()`, and the date of the call
  pub iso : ℕ → String
  pub now : ℕ
  -- the list at `body.references` of the parsed metadata, as it stands there
  pub references : String → Option (List String)

unfoldable pub print_nullable : Runtime → Option ℕ → Option String
print_nullable r none = none
print_nullable r (some n) = some (r.print n)

unfoldable pub map_vote_record : Runtime → Vote → VoteRecord
unfolding format_voter_type format_vote_choice truthy_text print_nullable
map_vote_record r v = record {
  tx_hash = v.tx_hash;
  voter_type = format_voter_type v.voter_type;
  voter_id = resolve_voter_id v;
  voter_name = truthy_text (resolve_voter_name v);
  choice = format_vote_choice v.choice;
  voting_power = print_nullable r v.voting_power;
  rationale = truthy_text v.rationale;
  anchor_url = truthy_text v.anchor_url;
  anchor_hash = truthy_text v.anchor_hash;
  voted_at = r.iso (v.voted_at or_maybe v.created_at or_maybe v.updated_at or_else r.now);
}
