-- ===== src/Mapper/Row.antt =====
-- The row of a proposal with its votes, as `proposalWithVotesSelect` of src/libs/proposalMapper.ts
-- reads it.
use cgov_api.Prelude.{ℕ, Option, String, List}
use cgov_api.Governance.{GovernanceType, ProposalStatus}
use cgov_api.Ledger.{DrepVotePower, SpoVotePower}
use cgov_api.Mapper.Votes.{Vote}

pub record Proposal : Type 0 where
  pub id : ℕ
  pub proposal_id : String
  pub tx_hash : String
  pub cert_index : String
  pub title : String
  pub description : Option String
  pub rationale : Option String
  pub governance_action_type : Option GovernanceType
  pub withdrawal_amount : Option ℕ
  pub status : ProposalStatus
  pub submission_epoch : Option ℕ
  pub expiration_epoch : Option ℕ
  pub drep_total_vote_power : Option ℕ
  pub drep_active_yes_vote_power : Option ℕ
  pub drep_active_no_vote_power : Option ℕ
  pub drep_active_abstain_vote_power : Option ℕ
  pub drep_always_abstain_vote_power : Option ℕ
  pub drep_always_no_confidence_power : Option ℕ
  pub drep_inactive_vote_power : Option ℕ
  pub spo_total_vote_power : Option ℕ
  pub spo_active_yes_vote_power : Option ℕ
  pub spo_active_no_vote_power : Option ℕ
  pub spo_active_abstain_vote_power : Option ℕ
  pub spo_always_abstain_vote_power : Option ℕ
  pub spo_always_no_confidence_power : Option ℕ
  pub spo_no_vote_power : Option ℕ
  pub metadata : Option String
  pub onchain_votes : List Vote

-- The fields of a proposal that the DRep figures read, and those that the SPO figures read.
unfoldable pub drep_fields : Proposal → DrepVotePower
drep_fields p = record {
  governance_type = p.governance_action_type;
  total_power = p.drep_total_vote_power;
  active_yes_power = p.drep_active_yes_vote_power;
  active_no_power = p.drep_active_no_vote_power;
  active_abstain_power = p.drep_active_abstain_vote_power;
  always_abstain_power = p.drep_always_abstain_vote_power;
  always_no_confidence_power = p.drep_always_no_confidence_power;
  inactive_power = p.drep_inactive_vote_power;
}

unfoldable pub spo_fields : Proposal → SpoVotePower
spo_fields p = record {
  proposal_id = p.proposal_id;
  submission_epoch = p.submission_epoch;
  governance_type = p.governance_action_type;
  total_power = p.spo_total_vote_power;
  active_yes_power = p.spo_active_yes_vote_power;
  active_no_power = p.spo_active_no_vote_power;
  active_abstain_power = p.spo_active_abstain_vote_power;
  always_abstain_power = p.spo_always_abstain_vote_power;
  always_no_confidence_power = p.spo_always_no_confidence_power;
  no_vote_power = p.spo_no_vote_power;
}
