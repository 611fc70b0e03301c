-- ===== src/Ledger.antt =====
-- src/libs/ledgerVoteMath.ts: the vote-power buckets of a proposal and their percentages.
-- A lovelace amount is a natural number (the column holds no negative amount), a difference of two
-- is an integer, and a percentage is its number of hundredths of a percent.
pub mod Percent
pub mod Drep
pub mod Spo
mod Tests
use cgov_api.Prelude.{
  ℕ, ◌+◌, ◌*◌, ◌/◌, Bool, Option, none, some, String, max, leb, ◌==◌, ◌or_else◌, is_some,
  if◌then◌else◌,
}
use cgov_api.Prelude.Int.{ℤ, pos, negsuc, ◌-ℤ◌, max_zero}
use cgov_api.Governance.{GovernanceType, is_no_confidence, is_hard_fork}
use text.Mathlib.Text.{◌==◌ as str_eq}

abbrev pub as_big_int : Option ℕ → ℕ
as_big_int value = value or_else 0

-- Two decimals, truncated.
pub pct2 : ℕ → ℤ → Option ℕ
pct2 numerator (negsuc d) = none
pct2 numerator (pos d) = if d == 0 then none else some (numerator * 10000 / d)

pub record DrepVotePower : Type 0 where
  pub governance_type : Option GovernanceType
  pub total_power : Option ℕ
  pub active_yes_power : Option ℕ
  pub active_no_power : Option ℕ
  pub active_abstain_power : Option ℕ
  pub always_abstain_power : Option ℕ
  pub always_no_confidence_power : Option ℕ
  pub inactive_power : Option ℕ

pub record DrepBuckets : Type 0 where
  pub total : ℕ
  pub inactive : ℕ
  pub yes_power : ℕ
  pub no_power : ℕ
  pub abstain_power : ℕ
  pub not_voted : ℕ
  pub yes_outcome_pct : Option ℕ
  pub no_outcome_pct : Option ℕ
  pub yes_dist_pct : Option ℕ
  pub no_dist_pct : Option ℕ
  pub abstain_dist_pct : Option ℕ

unfoldable pub drep_not_voted_raw : DrepVotePower → ℤ
drep_not_voted_raw p =
    pos (as_big_int p.total_power)
    -ℤ pos (as_big_int p.active_yes_power)
    -ℤ pos (as_big_int p.active_no_power)
    -ℤ pos (as_big_int p.active_abstain_power)
    -ℤ pos (as_big_int p.always_abstain_power)
    -ℤ pos (as_big_int p.always_no_confidence_power)
    -ℤ pos (as_big_int p.inactive_power)

unfoldable pub compute_drep_ledger_buckets : DrepVotePower → DrepBuckets
compute_drep_ledger_buckets p =
    let total = as_big_int p.total_power in
    let active_yes = as_big_int p.active_yes_power in
    let active_no = as_big_int p.active_no_power in
    let active_abstain = as_big_int p.active_abstain_power in
    let always_abstain = as_big_int p.always_abstain_power in
    let always_no_confidence = as_big_int p.always_no_confidence_power in
    let inactive = as_big_int p.inactive_power in
    let not_voted = max_zero (drep_not_voted_raw p) in
    let is_nc = is_no_confidence p.governance_type in
    let yes_power = if is_nc then active_yes + always_no_confidence else active_yes in
    let no_power =
      if is_nc then active_no + not_voted else active_no + always_no_confidence + not_voted in
    let abstain_power = active_abstain + always_abstain in
    let yes_no_denom = pos (yes_power + no_power) in
    let dist_denom = pos total -ℤ pos inactive in
    record {
      total = total;
      inactive = inactive;
      yes_power = yes_power;
      no_power = no_power;
      abstain_power = abstain_power;
      not_voted = not_voted;
      yes_outcome_pct = pct2 yes_power yes_no_denom;
      no_outcome_pct = pct2 no_power yes_no_denom;
      yes_dist_pct = pct2 yes_power dist_denom;
      no_dist_pct = pct2 no_power dist_denom;
      abstain_dist_pct = pct2 abstain_power dist_denom;
    }

pub record SpoVotePower : Type 0 where
  pub proposal_id : String
  pub submission_epoch : Option ℕ
  pub governance_type : Option GovernanceType
  pub total_power : Option ℕ
  pub active_yes_power : Option ℕ
  pub active_no_power : Option ℕ
  pub active_abstain_power : Option ℕ
  pub always_abstain_power : Option ℕ
  pub always_no_confidence_power : Option ℕ
  pub no_vote_power : Option ℕ

abbrev pub spo_formula_transition_gov_action : String
spo_formula_transition_gov_action =
    "gov_action1pvv5wmjqhwa4u85vu9f4ydmzu2mgt8n7et967ph2urhx53r70xusqnmm525"

abbrev pub spo_formula_transition_epoch : ℕ
spo_formula_transition_epoch = 534

epoch_uses_new_formula : Option ℕ → Bool
epoch_uses_new_formula none = Bool.false
epoch_uses_new_formula (some epoch) = leb spo_formula_transition_epoch epoch

pub should_use_new_spo_formula : String → Option ℕ → Bool
unfolding epoch_uses_new_formula
should_use_new_spo_formula proposal_id submission_epoch =
    if str_eq proposal_id spo_formula_transition_gov_action
    then Bool.true
    else epoch_uses_new_formula submission_epoch

pub record SpoBuckets : Type 0 where
  pub effective_total : ℕ
  pub yes_power : ℕ
  pub no_power : ℕ
  pub abstain_power : ℕ
  pub not_voted : ℕ
  pub yes_outcome_pct : Option ℕ
  pub no_outcome_pct : Option ℕ
  pub yes_dist_pct : Option ℕ
  pub no_dist_pct : Option ℕ
  pub abstain_dist_pct : Option ℕ

unfoldable pub spo_breakdown_sum : SpoVotePower → ℕ
spo_breakdown_sum p =
    as_big_int p.active_yes_power
    + as_big_int p.active_no_power
    + as_big_int p.active_abstain_power
    + as_big_int p.always_abstain_power
    + as_big_int p.always_no_confidence_power

unfoldable pub spo_effective_total : SpoVotePower → ℕ
unfolding spo_breakdown_sum
spo_effective_total p =
    if is_some p.no_vote_power
    then as_big_int p.active_yes_power
      + as_big_int p.no_vote_power
      + as_big_int p.active_abstain_power
      + as_big_int p.always_abstain_power
    else max (as_big_int p.total_power) (spo_breakdown_sum p)

pub spo_not_voted_raw : SpoVotePower → ℤ
unfolding spo_effective_total
spo_not_voted_raw p =
    if is_some p.no_vote_power
    then pos (as_big_int p.no_vote_power)
      -ℤ pos (as_big_int p.active_no_power)
      -ℤ pos (as_big_int p.always_no_confidence_power)
    else pos (spo_effective_total p)
      -ℤ pos (as_big_int p.active_yes_power)
      -ℤ pos (as_big_int p.active_no_power)
      -ℤ pos (as_big_int p.active_abstain_power)
      -ℤ pos (as_big_int p.always_abstain_power)
      -ℤ pos (as_big_int p.always_no_confidence_power)

pub compute_spo_ledger_buckets : SpoVotePower → SpoBuckets
compute_spo_ledger_buckets p =
    let yes_active = as_big_int p.active_yes_power in
    let no_active = as_big_int p.active_no_power in
    let abstain_active = as_big_int p.active_abstain_power in
    let always_abstain = as_big_int p.always_abstain_power in
    let always_no_confidence = as_big_int p.always_no_confidence_power in
    let effective_total = spo_effective_total p in
    let not_voted = max_zero (spo_not_voted_raw p) in
    let new_formula = should_use_new_spo_formula p.proposal_id p.submission_epoch in
    let is_nc = is_no_confidence p.governance_type in
    let is_hfi = is_hard_fork p.governance_type in
    let not_voted_calc =
      if is_hfi then not_voted + always_no_confidence + always_abstain else not_voted in
    let yes_power =
      if new_formula
      then (if is_hfi
          then yes_active
          else if is_nc
          then yes_active + always_no_confidence
          else yes_active)
      else yes_active in
    let no_power =
      if new_formula then no_active + not_voted_calc else no_active + always_no_confidence in
    let abstain_power =
      if new_formula
      then (if is_hfi then abstain_active else abstain_active + always_abstain)
      else abstain_active + always_abstain in
    let outcome_denom =
      if new_formula
      then pos effective_total -ℤ pos abstain_power
      else pos (yes_active + no_active + always_no_confidence) in
    let dist_denom = pos (yes_power + no_power + abstain_power) in
    record {
      effective_total = effective_total;
      yes_power = yes_power;
      no_power = no_power;
      abstain_power = abstain_power;
      not_voted = not_voted;
      yes_outcome_pct = pct2 yes_power outcome_denom;
      no_outcome_pct = pct2 no_power outcome_denom;
      yes_dist_pct = pct2 yes_power dist_denom;
      no_dist_pct = pct2 no_power dist_denom;
      abstain_dist_pct = pct2 abstain_power dist_denom;
    }
