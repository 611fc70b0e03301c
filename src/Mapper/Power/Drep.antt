-- ===== src/Mapper/Power/Drep.antt =====
-- `buildDrepVoteInfo` of src/libs/proposalMapper.ts.
use cgov_api.Prelude.{some, if◌then◌else◌}
use cgov_api.Governance.{is_no_confidence}
use cgov_api.Ledger.{DrepVotePower}
use cgov_api.Mapper.Numbers.{Double}
use cgov_api.Mapper.Power.{VoteInfo, nat, to_number, percent_of}

module _ (d : Double) where
  open d use {Num, of_ℤ, add, sub, mul, div, max, min, lt, to_fixed2, round_text}

  unfoldable pub drep_not_voted : DrepVotePower → Num
  drep_not_voted p =
      sub
        (sub
          (sub
            (sub
              (sub (sub (to_number d p.total_power) (to_number d p.active_yes_power))
                (to_number d p.active_no_power))
              (to_number d p.active_abstain_power))
            (to_number d p.always_abstain_power))
          (to_number d p.always_no_confidence_power))
        (to_number d p.inactive_power)

  unfoldable pub drep_yes_total : DrepVotePower → Num
  drep_yes_total p =
      if is_no_confidence p.governance_type
      then add (to_number d p.active_yes_power) (to_number d p.always_no_confidence_power)
      else to_number d p.active_yes_power

  unfoldable pub drep_no_total : DrepVotePower → Num
  unfolding drep_not_voted
  drep_no_total p =
      if is_no_confidence p.governance_type
      then add (to_number d p.active_no_power) (max (nat d 0) (drep_not_voted p))
      else add (add (to_number d p.active_no_power) (to_number d p.always_no_confidence_power))
          (max (nat d 0) (drep_not_voted p))

  unfoldable pub build_drep_vote_info : DrepVotePower → VoteInfo d
  unfolding drep_yes_total drep_no_total drep_not_voted percent_of
  build_drep_vote_info p =
      let total = to_number d p.total_power in
      let abstain = to_number d p.active_abstain_power in
      let always_abstain = to_number d p.always_abstain_power in
      let denominator = add (drep_yes_total p) (drep_no_total p) in
      record {
        yes_percent = to_fixed2 (percent_of d (drep_yes_total p) denominator);
        no_percent = to_fixed2 (percent_of d (drep_no_total p) denominator);
        abstain_percent = to_fixed2 (percent_of d (add abstain always_abstain) total);
        yes_lovelace = round_text (drep_yes_total p);
        no_lovelace = round_text (drep_no_total p);
        abstain_lovelace = round_text (add abstain always_abstain);
        breakdown = record {
          active_yes = round_text (to_number d p.active_yes_power);
          active_no = round_text (to_number d p.active_no_power);
          active_abstain = round_text abstain;
          always_abstain = round_text always_abstain;
          always_no_confidence = round_text (to_number d p.always_no_confidence_power);
          inactive = some (round_text (to_number d p.inactive_power));
          not_voted = round_text (max (nat d 0) (drep_not_voted p));
        };
      }
