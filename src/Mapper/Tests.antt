-- ===== src/Mapper/Tests.antt =====
-- The mapper on small inputs, over whole numbers in place of the floating-point ones: they satisfy
-- what the theorems ask of a `Double`, with quotients rounded down.
use native.Mathlib.Nat.{div-le_of_le-mul}
use cgov_api.Prelude.{
  [], ℕ, ◌+◌, ◌*◌, ◌/◌, ◌≤◌, ◌≡◌, ◌↔◌, refl, true, none, some, String, List, ◌∷◌, ◌&&◌, not, Has,
  arith, if◌then◌else◌,
}
use cgov_api.Prelude.Int.{ℤ, pos, pos_part, neg_part, sub_ℕ, ◌+ℤ◌, ◌-ℤ◌, ltb_ℤ}
use cgov_api.Governance.{
  no_confidence, hard_fork_initiation, active, VoteType, yes_vote, no_vote, VoterType, drep, spo,
  cc,
}
use cgov_api.Ledger.{DrepVotePower, as_big_int, compute_drep_ledger_buckets}
use cgov_api.Ledger.Drep.{breakdown}
use cgov_api.Mapper.Row.{Proposal}
use cgov_api.Mapper.Records.{Runtime}
use cgov_api.Mapper.Numbers.{Double, IsExact, IsOrdered}
use cgov_api.Mapper.Votes.{Vote, get_latest_cc_votes}
use cgov_api.Mapper.Votes.Latest.PerMember.{HasDistinctMembers, SpeaksFor, get_latest_cc_votes_lem}
use cgov_api.Mapper.Power.{CountTally, VoteInfo, percent_of}
use cgov_api.Mapper.Power.Drep.{build_drep_vote_info}
use cgov_api.Mapper.Power.Committee.{build_cc_vote_info}
use cgov_api.Mapper.Power.Exact.{safe_limit, drep_info-refines}
use cgov_api.Mapper.Decision.{
  VotingThreshold, get_voting_threshold, determine_voting_status, is_proposal_passing,
}
use cgov_api.Mapper.Decision.Outcome.{Meets, Agrees, passing_iff}

abbrev mul_ℤ : ℤ → ℤ → ℤ
mul_ℤ x y =
    sub_ℕ (pos_part x * pos_part y + neg_part x * neg_part y)
      (pos_part x * neg_part y + neg_part x * pos_part y)

abbrev div_ℤ : ℤ → ℤ → ℤ
div_ℤ x y = pos (pos_part x / pos_part y)

abbrev pub whole_numbers : Double
whole_numbers = record {
  Num = ℤ;
  of_ℤ = λ z. z;
  of_hundredths = λ n. pos (n / 100);
  add = ◌+ℤ◌;
  sub = ◌-ℤ◌;
  mul = mul_ℤ;
  div = div_ℤ;
  max = λ x y. if ltb_ℤ x y then y else x;
  min = λ x y. if ltb_ℤ x y then x else y;
  lt = ltb_ℤ;
  le = λ x y. not (ltb_ℤ y x);
  eq = λ x y. not (ltb_ℤ x y) && not (ltb_ℤ y x);
  to_fixed2 = λ x. x;
  round_text = λ x. "";
  text = λ x. "";
}

whole_numbers-IsExact : IsExact whole_numbers
whole_numbers-IsExact = record {
  add_exact = λ a b p q r. refl;
  sub_exact = λ a b p q r. refl;
  max_exact = λ a b p q. refl;
}

div_le_one : (a b : ℕ) → a ≤ b → a / b ≤ 1
div_le_one a b h = div-le_of_le-mul b {m = a} {n = 1} (omega arith)

whole_numbers-IsOrdered : IsOrdered whole_numbers
unfolding ◌+ℤ◌
whole_numbers-IsOrdered = record {
  of_nonneg = λ n. ground arith;
  zero_le_hundred = refl;
  add_nonneg = λ x y p q. ground arith;
  le_add_right = λ x y p q. ground arith;
  le_add_left = λ x y p q. ground arith;
  max_nonneg = λ x. ground arith;
  div_nonneg = λ x y p q. ground arith;
  div_le_one = λ x y p q. ground (arith, div_le_one (pos_part x) (pos_part y));
  percent_nonneg = λ x p. ground arith;
  percent_le = λ x p. ground arith;
  fixed_InRange = λ x p. p;
}

abbrev dreps : DrepVotePower
dreps = record {
  governance_type = some no_confidence;
  total_power = some 1000;
  active_yes_power = some 600;
  active_no_power = some 200;
  active_abstain_power = some 50;
  always_abstain_power = none;
  always_no_confidence_power = some 30;
  inactive_power = some 70;
}

dreps_total_safe : as_big_int dreps.total_power ≤ safe_limit
dreps_total_safe = omega arith

dreps_parts_safe : breakdown dreps ≤ safe_limit
unfolding breakdown
dreps_parts_safe = omega arith

drep_info-refines_example :
    let b = compute_drep_ledger_buckets dreps in
    let info = build_drep_vote_info whole_numbers dreps in
    (info.yes_lovelace ≡ whole_numbers.round_text (pos b.yes_power))
    × (info.no_lovelace ≡ whole_numbers.round_text (pos b.no_power))
    × (info.abstain_lovelace ≡ whole_numbers.round_text (pos b.abstain_power))
    × (info.breakdown.not_voted ≡ whole_numbers.round_text (pos b.not_voted))
    × (info.yes_percent
        ≡ percent_of whole_numbers (pos b.yes_power) (pos (b.yes_power + b.no_power)))
    × (info.no_percent ≡ percent_of whole_numbers (pos b.no_power) (pos (b.yes_power + b.no_power)))
    × (info.abstain_percent ≡ percent_of whole_numbers (pos b.abstain_power) (pos b.total))
drep_info-refines_example =
    drep_info-refines whole_numbers whole_numbers-IsExact dreps dreps_total_safe dreps_parts_safe

abbrev vote_of : VoterType → String → ℕ → VoteType → Vote
vote_of k member time choice = record {
  id = "";
  tx_hash = "";
  choice = some choice;
  voter_type = k;
  voting_power = some 10;
  anchor_url = none;
  anchor_hash = none;
  rationale = none;
  voted_at = some time;
  created_at = none;
  updated_at = none;
  drep_id = none;
  spo_id = none;
  cc_id = some member;
  drep_row = none;
  spo_row = none;
  cc_row = none;
}

-- One member votes twice, another in between.
abbrev cc_votes : List Vote
cc_votes =
    vote_of cc "cc1" 5 no_vote ∷ vote_of cc "cc2" 6 yes_vote ∷ vote_of cc "cc1" 7 yes_vote ∷ []

get_latest_cc_votes_lem_example :
    HasDistinctMembers (get_latest_cc_votes cc_votes)
    × ((u : Vote) → Has u (get_latest_cc_votes cc_votes) → Has u cc_votes)
    × ((w : Vote)
        → Has w cc_votes
        → (u : Vote) × Has u (get_latest_cc_votes cc_votes) × SpeaksFor u w)
get_latest_cc_votes_lem_example = get_latest_cc_votes_lem cc_votes

abbrev drep_info : VoteInfo whole_numbers
drep_info = build_drep_vote_info whole_numbers dreps

abbrev cc_tally : CountTally
cc_tally = record { yes_count = 5; no_count = 1; abstain_count = 0; total_count = 6 }

abbrev threshold : VotingThreshold whole_numbers
threshold = get_voting_threshold whole_numbers (some hard_fork_initiation)

passing_iff_example :
    let committee = build_cc_vote_info whole_numbers cc_tally (some 7) in
    (is_proposal_passing whole_numbers
        (determine_voting_status whole_numbers threshold drep_info none (some committee))
      ≡ true)
    ↔ (Meets whole_numbers threshold.drep_threshold drep_info.yes_percent
        × Agrees whole_numbers threshold.spo_threshold none
        × Agrees whole_numbers threshold.cc_threshold (some committee.yes_percent))
passing_iff_example =
    passing_iff whole_numbers threshold drep_info none
      (some (build_cc_vote_info whole_numbers cc_tally (some 7)))

abbrev runtime : Runtime
runtime = record { print = λ n. ""; iso = λ n. ""; now = 0; references = λ s. none }

abbrev proposal : Proposal
proposal = record {
  id = 1;
  proposal_id = "gov_action1test";
  tx_hash = "00";
  cert_index = "0";
  title = "";
  description = none;
  rationale = none;
  governance_action_type = some hard_fork_initiation;
  withdrawal_amount = none;
  status = active;
  submission_epoch = some 540;
  expiration_epoch = some 546;
  drep_total_vote_power = none;
  drep_active_yes_vote_power = none;
  drep_active_no_vote_power = none;
  drep_active_abstain_vote_power = none;
  drep_always_abstain_vote_power = none;
  drep_always_no_confidence_power = none;
  drep_inactive_vote_power = none;
  spo_total_vote_power = none;
  spo_active_yes_vote_power = none;
  spo_active_no_vote_power = none;
  spo_active_abstain_vote_power = none;
  spo_always_abstain_vote_power = none;
  spo_always_no_confidence_power = none;
  spo_no_vote_power = none;
  metadata = none;
  onchain_votes = vote_of drep "drep1" 1 yes_vote ∷ vote_of spo "pool1" 2 no_vote ∷ cc_votes;
}
