-- ===== src/Mapper/Power/Committee.antt =====
-- `buildCcVoteInfo` of src/libs/proposalMapper.ts.
use cgov_api.Prelude.{ℕ, Option, leb, ◌or_else◌}
use cgov_api.Prelude.Int.{pos, ◌-ℤ◌, max_zero}
use cgov_api.Mapper.Numbers.{Double}
use cgov_api.Mapper.Power.{
  CountTally, CcVoteInfo, nat, percent_of, default_cc_members, min_eligible_cc_members,
}

module _ (d : Double) where
  open d use {Num, of_ℤ, add, sub, mul, div, max, min, lt, to_fixed2, round_text}

  unfoldable pub build_cc_vote_info : CountTally → Option ℕ → CcVoteInfo d
  unfolding percent_of
  build_cc_vote_info t eligible_members =
      let total_eligible = eligible_members or_else default_cc_members in
      let not_voted =
        max_zero (pos total_eligible -ℤ pos t.yes_count -ℤ pos t.no_count -ℤ pos t.abstain_count) in
      let denominator = of_ℤ (pos total_eligible -ℤ pos t.abstain_count) in
      record {
        yes_percent = to_fixed2 (percent_of d (nat d t.yes_count) denominator);
        no_percent = to_fixed2 (percent_of d (nat d t.no_count) denominator);
        abstain_percent = to_fixed2 (percent_of d (nat d t.abstain_count) (nat d total_eligible));
        not_voted_percent = to_fixed2 (percent_of d (nat d not_voted) (nat d total_eligible));
        yes_count = t.yes_count;
        no_count = t.no_count;
        abstain_count = t.abstain_count;
        not_voted_count = not_voted;
        eligible_members = total_eligible;
        is_committee_valid = leb min_eligible_cc_members total_eligible;
      }
