-- ===== src/Mapper/Decision/Outcome.antt =====
-- When a proposal passes, and the two readings of the committee votes.
use cgov_api.Prelude.{ℕ, ◌+◌, ◌≡◌, ◌⊎◌, ◌↔◌, inl, inr, refl, true, false, Option, none, some, arith}
use cgov_api.Mapper.Numbers.{Double}
use cgov_api.Mapper.Power.{CountTally, VoteInfo, CcVoteInfo, nat}
use cgov_api.Mapper.Power.Committee.{build_cc_vote_info}
use cgov_api.Mapper.Decision.{
  VotingThreshold, evaluate_threshold, body_passing, is_false, percent_of_info, percent_of_cc_info,
  determine_voting_status, is_proposal_passing, committee_too_small, pending,
  determine_constitutionality,
}

module _ (d : Double) where
  open d use {Num, mul, le}

  -- The body meets its threshold, a fraction of 1.
  abbrev pub Meets : Num → Num → Type 0
  Meets threshold yes_percent = le (mul threshold (nat d 100)) yes_percent ≡ true

  -- A body takes no part, or has figures and they meet its threshold.
  abbrev pub Agrees : Option Num → Option Num → Type 0
  Agrees threshold percent =
      (threshold ≡ none)
      ⊎ ((t : Num) × (p : Num) × (threshold ≡ some t) × (percent ≡ some p) × Meets t p)

  body-Agrees_iff :
      (threshold percent : Option Num)
      → (is_false (body_passing d threshold percent) ≡ false) ↔ Agrees threshold percent
  unfolding body_passing evaluate_threshold
  body-Agrees_iff none percent = (λ _. inl refl, λ _. refl)
  body-Agrees_iff (some t) none = (λ e. cc, λ h. ground arith)
  body-Agrees_iff (some t) (some p) = (λ e. inr (t, p, refl, refl, ground arith), λ h. ground arith)

  -- A proposal passes exactly when the DReps meet their threshold and each of the other two bodies
  -- takes no part or has figures that meet its threshold.
  pub passing_iff :
      (t : VotingThreshold d) (drep : VoteInfo d) (spo : Option (VoteInfo d))
      (cc : Option (CcVoteInfo d))
      → (is_proposal_passing d (determine_voting_status d t drep spo cc) ≡ true) ↔ (
          Meets t.drep_threshold drep.yes_percent
          × Agrees t.spo_threshold (percent_of_info d spo)
          × Agrees t.cc_threshold (percent_of_cc_info d cc))
  unfolding is_proposal_passing determine_voting_status evaluate_threshold
  passing_iff t drep spo cc = (
    λ e. (
      ground arith,
      (body-Agrees_iff t.spo_threshold (percent_of_info d spo)).0 (ground arith),
      (body-Agrees_iff t.cc_threshold (percent_of_cc_info d cc)).0 (ground arith),
    ),
    λ h. ground (
      arith,
      (body-Agrees_iff t.spo_threshold (percent_of_info d spo)).1 h.1,
      (body-Agrees_iff t.cc_threshold (percent_of_cc_info d cc)).1 h.2,
    ),
  )

  -- The committee is reported too small exactly when its vote information calls it invalid, and
  -- pending exactly when it is valid and no vote of it is counted.
  pub constitutionality_agrees :
      (t : CountTally) (eligible : Option ℕ)
      → ((determine_constitutionality d t eligible ≡ committee_too_small)
          ↔ ((build_cc_vote_info d t eligible).is_committee_valid ≡ false))
        × ((determine_constitutionality d t eligible ≡ pending) ↔ (
            ((build_cc_vote_info d t eligible).is_committee_valid ≡ true)
            × (t.yes_count + t.no_count + t.abstain_count ≡ 0)))
  unfolding determine_constitutionality build_cc_vote_info
  constitutionality_agrees t eligible = (
    (λ e. ground arith, λ e. ground arith),
    (λ e. (ground arith, ground arith), λ h. ground arith),
  )
