-- ===== src/Mapper/Power/Spo.antt =====
-- `buildSpoVoteInfo` of src/libs/proposalMapper.ts, and the effective total that it shares with the raw
-- values of a governance action.
use cgov_api.Prelude.{Bool, Option, none, some, is_some, if◌then◌else◌}
use cgov_api.Governance.{is_no_confidence, is_hard_fork}
use cgov_api.Ledger.{SpoVotePower, should_use_new_spo_formula}
use cgov_api.Mapper.Numbers.{Double}
use cgov_api.Mapper.Power.{VoteInfo, nat, to_number, percent_of}

module _ (d : Double) where
  open d use {Num, of_ℤ, add, sub, mul, div, max, min, lt, to_fixed2, round_text}

  spo_breakdown_sum : SpoVotePower → Num
  spo_breakdown_sum p =
      add
        (add
          (add (add (to_number d p.active_yes_power) (to_number d p.active_no_power))
            (to_number d p.active_abstain_power))
          (to_number d p.always_abstain_power))
        (to_number d p.always_no_confidence_power)

  unfoldable pub spo_effective_total : SpoVotePower → Num
  unfolding spo_breakdown_sum
  spo_effective_total p =
      if is_some p.no_vote_power
      then add
          (add (add (to_number d p.active_yes_power) (to_number d p.no_vote_power))
            (to_number d p.active_abstain_power))
          (to_number d p.always_abstain_power)
      else max (to_number d p.total_power) (spo_breakdown_sum p)

  pub spo_not_voted : SpoVotePower → Num
  unfolding spo_effective_total
  spo_not_voted p =
      if is_some p.no_vote_power
      then sub (sub (to_number d p.no_vote_power) (to_number d p.active_no_power))
          (to_number d p.always_no_confidence_power)
      else sub
          (sub
            (sub
              (sub (sub (spo_effective_total p) (to_number d p.active_yes_power))
                (to_number d p.active_no_power))
              (to_number d p.active_abstain_power))
            (to_number d p.always_abstain_power))
          (to_number d p.always_no_confidence_power)

  abbrev pub uses_new_formula : SpoVotePower → Bool
  uses_new_formula p = should_use_new_spo_formula p.proposal_id p.submission_epoch

  pub spo_yes_total : SpoVotePower → Num
  spo_yes_total p =
      if uses_new_formula p
      then (if is_hard_fork p.governance_type
          then to_number d p.active_yes_power
          else if is_no_confidence p.governance_type
          then add (to_number d p.active_yes_power) (to_number d p.always_no_confidence_power)
          else to_number d p.active_yes_power)
      else to_number d p.active_yes_power

  pub spo_abstain_total : SpoVotePower → Num
  spo_abstain_total p =
      if uses_new_formula p
      then (if is_hard_fork p.governance_type
          then to_number d p.active_abstain_power
          else add (to_number d p.active_abstain_power) (to_number d p.always_abstain_power))
      else add (to_number d p.active_abstain_power) (to_number d p.always_abstain_power)

  pub spo_not_voted_calc : SpoVotePower → Num
  unfolding spo_not_voted
  spo_not_voted_calc p =
      if is_hard_fork p.governance_type
      then add (add (spo_not_voted p) (to_number d p.always_no_confidence_power))
          (to_number d p.always_abstain_power)
      else spo_not_voted p

  pub spo_no_total : SpoVotePower → Num
  unfolding spo_not_voted_calc
  spo_no_total p =
      if uses_new_formula p
      then add (to_number d p.active_no_power) (max (nat d 0) (spo_not_voted_calc p))
      else add (to_number d p.active_no_power) (to_number d p.always_no_confidence_power)

  pub spo_denominator : SpoVotePower → Num
  unfolding spo_effective_total spo_abstain_total
  spo_denominator p =
      if uses_new_formula p
      then sub (spo_effective_total p) (spo_abstain_total p)
      else add (add (to_number d p.active_yes_power) (to_number d p.active_no_power))
          (to_number d p.always_no_confidence_power)

  -- The two safety nets: each percentage is at most 100, and both are scaled down where their sum
  -- is more.
  pub cap_percents : Num → Num → Num × Num
  cap_percents yes_raw no_raw =
      let yes_percent = min (nat d 100) yes_raw in
      let no_percent = min (nat d 100) no_raw in
      let combined = add yes_percent no_percent in
      let scale = div (nat d 100) combined in
      if lt (nat d 100) combined
      then (mul yes_percent scale, mul no_percent scale)
      else (yes_percent, no_percent)

  spo_vote_info : SpoVotePower → VoteInfo d
  unfolding spo_yes_total spo_no_total spo_abstain_total spo_denominator spo_not_voted
      spo_effective_total percent_of cap_percents
  spo_vote_info p =
      let (yes_percent, no_percent) =
        cap_percents (percent_of d (spo_yes_total p) (spo_denominator p))
          (percent_of d (spo_no_total p) (spo_denominator p)) in
      record {
        yes_percent = to_fixed2 yes_percent;
        no_percent = to_fixed2 no_percent;
        abstain_percent = to_fixed2 (percent_of d (spo_abstain_total p) (spo_effective_total p));
        yes_lovelace = round_text (spo_yes_total p);
        no_lovelace = round_text (spo_no_total p);
        abstain_lovelace = round_text (spo_abstain_total p);
        breakdown = record {
          active_yes = round_text (to_number d p.active_yes_power);
          active_no = round_text (to_number d p.active_no_power);
          active_abstain = round_text (to_number d p.active_abstain_power);
          always_abstain = round_text (to_number d p.always_abstain_power);
          always_no_confidence = round_text (to_number d p.always_no_confidence_power);
          inactive = none;
          not_voted = round_text (max (nat d 0) (spo_not_voted p));
        };
      }

  -- Without a total there is no SPO information.
  pub build_spo_vote_info : SpoVotePower → Option (VoteInfo d)
  unfolding spo_vote_info
  build_spo_vote_info p = if is_some p.total_power then some (spo_vote_info p) else none
