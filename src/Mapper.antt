-- ===== src/Mapper.antt =====
-- src/libs/proposalMapper.ts: from a proposal row with its votes to a governance action.
-- JavaScript's floating-point numbers are a parameter (`Double`), and so is what `Runtime` holds.
pub mod Numbers
pub mod Votes
pub mod Row
pub mod Records
pub mod Power
pub mod Decision
pub mod Action
pub mod Tests
use Prim.Native.String
use text.Mathlib.Text.{◌==◌ as str_eq}
use cgov_api.Prelude.{
  [], ℕ, Bool, true, false, Option, none, some, String, List, ◌∷◌, map, filter, not, ◌or_else◌,
  ◌or_maybe◌, is_some, if◌then◌else◌,
}
use cgov_api.Governance.{drep, spo, cc}
use Numbers.{Double}
use Row.{Proposal, drep_fields, spo_fields}
use Records.{
  format_governance_type, format_status, is_voter, VoteRecord, Runtime, print_nullable,
  map_vote_record,
}
use Votes.{Vote, get_latest_cc_votes}
use Power.{
  CountTally, AdaTally, VoteInfo, CcVoteInfo, tally_count_votes, combine_count_tallies,
  tally_lovelace_votes, build_vote_info,
}
use Power.Drep.{build_drep_vote_info}
use Power.Spo.{build_spo_vote_info, spo_effective_total}
use Power.Committee.{build_cc_vote_info}
use Decision.{
  VotingThreshold, VotingStatus, Constitutionality, get_voting_threshold, determine_voting_status,
  is_proposal_passing, determine_constitutionality,
}

-- `proposalId`, else `txHash:certIndex`; no text column is null.
pub build_proposal_identifier : Proposal → (ℕ → String) → String
build_proposal_identifier p print =
    if not (str_eq p.proposal_id "")
    then p.proposal_id
    else if not (str_eq p.tx_hash "")
    then String.◌++◌ p.tx_hash (String.◌++◌ ":" p.cert_index)
    else print p.id

build_hash : Proposal → String
build_hash p =
    if not (str_eq p.cert_index "")
    then String.◌++◌ p.tx_hash (String.◌++◌ ":" p.cert_index)
    else p.tx_hash

pub record RawVotingPowerValues : Type 0 where
  pub drep_total : Option String
  pub drep_active_yes : Option String
  pub drep_active_no : Option String
  pub drep_active_abstain : Option String
  pub drep_always_abstain : Option String
  pub drep_always_no_confidence : Option String
  pub drep_inactive : Option String
  pub spo_total : Option String
  pub spo_effective_total : Option String
  pub spo_no_vote : Option String
  pub spo_active_yes : Option String
  pub spo_active_no : Option String
  pub spo_active_abstain : Option String
  pub spo_always_abstain : Option String
  pub spo_always_no_confidence : Option String

pub is_empty : List Vote → Bool
is_empty [] = true
is_empty (v ∷ vs) = false

-- `list.length ? list : undefined`
pub non_empty : List VoteRecord → Option (List VoteRecord)
non_empty [] = none
non_empty (x ∷ xs) = some (x ∷ xs)

module _ (d : Double) (r : Runtime) where
  pub record VoteAggregation : Type 0 where
    pub drep_votes : List Vote
    pub spo_votes : List Vote
    pub cc_votes : List Vote
    pub drep_lovelace_tally : AdaTally d
    pub spo_lovelace_tally : AdaTally d
    pub cc_count_tally : CountTally
    pub totals : CountTally

  pub aggregate_votes : List Vote → VoteAggregation
  unfolding is_voter
  aggregate_votes votes =
      let drep_votes = filter (is_voter drep) votes in
      let spo_votes = filter (is_voter spo) votes in
      let cc_votes = get_latest_cc_votes (filter (is_voter cc) votes) in
      record {
        drep_votes = drep_votes;
        spo_votes = spo_votes;
        cc_votes = cc_votes;
        drep_lovelace_tally = tally_lovelace_votes d drep_votes;
        spo_lovelace_tally = tally_lovelace_votes d spo_votes;
        cc_count_tally = tally_count_votes cc_votes;
        totals = combine_count_tallies (
            tally_count_votes drep_votes
            ∷ tally_count_votes spo_votes
            ∷ tally_count_votes cc_votes
            ∷ []);
      }

  raw_values : Proposal → RawVotingPowerValues
  unfolding print_nullable
  raw_values p = record {
    drep_total = print_nullable r p.drep_total_vote_power;
    drep_active_yes = print_nullable r p.drep_active_yes_vote_power;
    drep_active_no = print_nullable r p.drep_active_no_vote_power;
    drep_active_abstain = print_nullable r p.drep_active_abstain_vote_power;
    drep_always_abstain = print_nullable r p.drep_always_abstain_vote_power;
    drep_always_no_confidence = print_nullable r p.drep_always_no_confidence_power;
    drep_inactive = print_nullable r p.drep_inactive_vote_power;
    spo_total = print_nullable r p.spo_total_vote_power;
    spo_effective_total =
        if is_some p.spo_total_vote_power
        then some (d.text (spo_effective_total d (spo_fields p)))
        else none;
    spo_no_vote = print_nullable r p.spo_no_vote_power;
    spo_active_yes = print_nullable r p.spo_active_yes_vote_power;
    spo_active_no = print_nullable r p.spo_active_no_vote_power;
    spo_active_abstain = print_nullable r p.spo_active_abstain_vote_power;
    spo_always_abstain = print_nullable r p.spo_always_abstain_vote_power;
    spo_always_no_confidence = print_nullable r p.spo_always_no_confidence_power;
  }

  pub record GovernanceAction : Type 0 where
    pub proposal_id : String
    pub hash : String
    pub title : String
    pub type_label : String
    pub withdrawal_amount : Option String
    pub status : String
    pub constitutionality : Constitutionality
    pub drep_info : VoteInfo d
    pub spo_info : Option (VoteInfo d)
    pub cc_info : Option (CcVoteInfo d)
    pub total_yes : ℕ
    pub total_no : ℕ
    pub total_abstain : ℕ
    pub submission_epoch : ℕ
    pub expiry_epoch : ℕ
    pub threshold : VotingThreshold d
    pub voting_status : VotingStatus d
    pub passing : Bool
    pub raw_voting_power_values : RawVotingPowerValues

  pub select_drep_info : Proposal → VoteAggregation → VoteInfo d
  unfolding drep_fields
  select_drep_info p a =
      if is_some p.drep_total_vote_power
      then build_drep_vote_info d (drep_fields p)
      else build_vote_info d a.drep_lovelace_tally

  pub select_spo_info : Proposal → VoteAggregation → Option (VoteInfo d)
  unfolding spo_fields is_empty
  select_spo_info p a =
      build_spo_vote_info d (spo_fields p)
      or_maybe (if is_empty a.spo_votes
          then none
          else some (build_vote_info d a.spo_lovelace_tally))

  pub select_cc_info : Option ℕ → VoteAggregation → Option (CcVoteInfo d)
  unfolding is_empty
  select_cc_info eligible a =
      if is_empty a.cc_votes then none else some (build_cc_vote_info d a.cc_count_tally eligible)

  pub map_proposal_to_governance_action : Proposal → Option ℕ → GovernanceAction
  unfolding aggregate_votes select_drep_info select_spo_info select_cc_info raw_values
      build_proposal_identifier build_hash format_governance_type format_status print_nullable
  map_proposal_to_governance_action p eligible =
      let a = aggregate_votes p.onchain_votes in
      let drep_info = select_drep_info p a in
      let spo_info = select_spo_info p a in
      let cc_info = select_cc_info eligible a in
      let threshold = get_voting_threshold d p.governance_action_type in
      let voting_status = determine_voting_status d threshold drep_info spo_info cc_info in
      record {
        proposal_id = build_proposal_identifier p r.print;
        hash = build_hash p;
        title = p.title;
        type_label = format_governance_type p.governance_action_type;
        withdrawal_amount = print_nullable r p.withdrawal_amount;
        status = format_status p.status;
        constitutionality = determine_constitutionality d a.cc_count_tally eligible;
        drep_info = drep_info;
        spo_info = spo_info;
        cc_info = cc_info;
        total_yes = a.totals.yes_count;
        total_no = a.totals.no_count;
        total_abstain = a.totals.abstain_count;
        submission_epoch = p.submission_epoch or_else 0;
        expiry_epoch = p.expiration_epoch or_else 0;
        threshold = threshold;
        voting_status = voting_status;
        passing = is_proposal_passing d voting_status;
        raw_voting_power_values = raw_values p;
      }

  pub record GovernanceActionDetail : Type 0 where
    pub action : GovernanceAction
    pub description : Option String
    pub rationale : Option String
    pub votes : Option (List VoteRecord)
    pub cc_votes : Option (List VoteRecord)
    pub references : Option (List String)

  references_of : Option String → Option (List String)
  references_of none = none
  references_of (some text) = if str_eq text "" then none else r.references text

  pub map_proposal_to_governance_action_detail : Proposal → Option ℕ → GovernanceActionDetail
  unfolding is_voter map_vote_record non_empty references_of map_proposal_to_governance_action
  map_proposal_to_governance_action_detail p eligible =
      let standard_votes = filter (λ v. not (is_voter cc v)) p.onchain_votes in
      let cc_votes = get_latest_cc_votes (filter (is_voter cc) p.onchain_votes) in
      record {
        action = map_proposal_to_governance_action p eligible;
        description = p.description;
        rationale = p.rationale;
        votes = non_empty (map (map_vote_record r) standard_votes);
        cc_votes = non_empty (map (map_vote_record r) cc_votes);
        references = references_of p.metadata;
      }
