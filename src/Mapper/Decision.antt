-- ===== src/Mapper/Decision.antt =====
-- Thresholds, the outcome of each body, and the overall outcome, from src/libs/proposalMapper.ts.
pub mod Outcome
use cgov_api.Prelude.{
  ℕ, ◌+◌, Bool, true, false, Option, none, some, ltb, ◌==◌, ◌or_else◌, not, if◌then◌else◌,
}
use cgov_api.Prelude.Int.{pos, ◌-ℤ◌}
use cgov_api.Governance.{
  GovernanceType, info_action, treasury_withdrawals, new_constitution, hard_fork_initiation,
  protocol_parameter_change, no_confidence, update_committee,
}
use cgov_api.Mapper.Numbers.{Double}
use cgov_api.Mapper.Power.{
  CountTally, VoteInfo, CcVoteInfo, nat, percent_of, default_cc_members, min_eligible_cc_members,
}

pub data Constitutionality : Type 0 where
  constitutional unconstitutional pending committee_too_small : Constitutionality

-- `passing === false`
abbrev pub is_false : Option Bool → Bool
is_false (some false) = true
is_false _ = false

module _ (d : Double) where
  open d use {Num, of_ℤ, of_hundredths, mul, le}

  pub record VotingThreshold : Type 0 where
    pub cc_threshold : Option Num
    pub drep_threshold : Num
    pub spo_threshold : Option Num

  pub voting_thresholds : GovernanceType → VotingThreshold
  voting_thresholds no_confidence = record {
    cc_threshold = none;
    drep_threshold = of_hundredths 67;
    spo_threshold = some (of_hundredths 51);
  }
  voting_thresholds update_committee = record {
    cc_threshold = none;
    drep_threshold = of_hundredths 67;
    spo_threshold = some (of_hundredths 51);
  }
  voting_thresholds new_constitution = record {
    cc_threshold = some (of_hundredths 67);
    drep_threshold = of_hundredths 75;
    spo_threshold = none;
  }
  voting_thresholds hard_fork_initiation = record {
    cc_threshold = some (of_hundredths 67);
    drep_threshold = of_hundredths 60;
    spo_threshold = some (of_hundredths 51);
  }
  voting_thresholds protocol_parameter_change = record {
    cc_threshold = some (of_hundredths 67);
    drep_threshold = of_hundredths 67;
    spo_threshold = none;
  }
  voting_thresholds treasury_withdrawals = record {
    cc_threshold = some (of_hundredths 67);
    drep_threshold = of_hundredths 67;
    spo_threshold = none;
  }
  voting_thresholds info_action = record {
    cc_threshold = some (of_hundredths 67);
    drep_threshold = of_hundredths 100;
    spo_threshold = some (of_hundredths 100);
  }

  pub get_voting_threshold : Option GovernanceType → VotingThreshold
  unfolding voting_thresholds
  get_voting_threshold none = voting_thresholds info_action
  get_voting_threshold (some t) = voting_thresholds t

  pub evaluate_threshold : Num → Option Num → Option Bool
  evaluate_threshold yes_percent none = none
  evaluate_threshold yes_percent (some threshold) =
      some (le (mul threshold (nat d 100)) yes_percent)

  pub record VotingStatus : Type 0 where
    pub cc_passing : Option Bool
    pub drep_passing : Bool
    pub spo_passing : Option Bool

  -- The outcome of a body that may not take part, or have no information.
  pub body_passing : Option Num → Option Num → Option Bool
  unfolding evaluate_threshold
  body_passing none yes_percent = none
  body_passing (some threshold) none = some false
  body_passing (some threshold) (some yes_percent) = evaluate_threshold yes_percent (some threshold)

  abbrev pub percent_of_info : Option (VoteInfo d) → Option Num
  percent_of_info none = none
  percent_of_info (some info) = some info.yes_percent

  abbrev pub percent_of_cc_info : Option (CcVoteInfo d) → Option Num
  percent_of_cc_info none = none
  percent_of_cc_info (some info) = some info.yes_percent

  pub determine_voting_status :
      VotingThreshold → VoteInfo d → Option (VoteInfo d) → Option (CcVoteInfo d) → VotingStatus
  unfolding evaluate_threshold body_passing
  determine_voting_status t drep_info spo_info cc_info = record {
    cc_passing = body_passing t.cc_threshold (percent_of_cc_info cc_info);
    drep_passing = evaluate_threshold drep_info.yes_percent (some t.drep_threshold) or_else false;
    spo_passing = body_passing t.spo_threshold (percent_of_info spo_info);
  }

  pub is_proposal_passing : VotingStatus → Bool
  is_proposal_passing s =
      if not s.drep_passing
      then false
      else if is_false s.spo_passing
      then false
      else if is_false s.cc_passing
      then false
      else true

  pub determine_constitutionality : CountTally → Option ℕ → Constitutionality
  unfolding percent_of
  determine_constitutionality t eligible_members =
      let votes_cast = t.yes_count + t.no_count + t.abstain_count in
      let total_eligible = eligible_members or_else default_cc_members in
      let denominator = of_ℤ (pos total_eligible -ℤ pos t.abstain_count) in
      let yes_percent = percent_of d (nat d t.yes_count) denominator in
      if ltb total_eligible min_eligible_cc_members
      then committee_too_small
      else if votes_cast == 0
      then pending
      else if le (nat d 67) yes_percent
      then constitutional
      else unconstitutional
