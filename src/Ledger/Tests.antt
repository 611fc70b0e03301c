-- ===== src/Ledger/Tests.antt =====
-- The ledger arithmetic on small records.
use cgov_api.Prelude.{◌+◌, ◌≡◌, ◌≤◌, refl, max, inr, true, false, some, arith}
use cgov_api.Prelude.Int.{◌-ℤ◌}
use cgov_api.Governance.{treasury_withdrawals, no_confidence}
use cgov_api.Ledger.{
  DrepVotePower, SpoVotePower, epoch_uses_new_formula, pct2, as_big_int, drep_not_voted_raw,
  compute_drep_ledger_buckets, should_use_new_spo_formula, compute_spo_ledger_buckets,
}
use cgov_api.Ledger.Drep.{breakdown, buckets_partition}
use cgov_api.Ledger.Spo.{IsConsistent, uses_new_formula, omitted, new_formula_partition}

abbrev dreps : DrepVotePower
dreps = record {
  governance_type = some treasury_withdrawals;
  total_power = some 1000;
  active_yes_power = some 300;
  active_no_power = some 200;
  active_abstain_power = some 50;
  always_abstain_power = some 100;
  always_no_confidence_power = some 30;
  inactive_power = some 70;
}

-- A motion of no confidence after the transition, with Koios' no power.
abbrev pools : SpoVotePower
pools = record {
  proposal_id = "gov_action1test";
  submission_epoch = some 540;
  governance_type = some no_confidence;
  total_power = some 900;
  active_yes_power = some 300;
  active_no_power = some 200;
  active_abstain_power = some 50;
  always_abstain_power = some 100;
  always_no_confidence_power = some 30;
  no_vote_power = some 400;
}

abbrev old_pools : SpoVotePower
old_pools = record pools { submission_epoch = some 500 }

drep_yes_share : (compute_drep_ledger_buckets dreps).yes_outcome_pct ≡ some 3846
unfolding compute_drep_ledger_buckets drep_not_voted_raw pct2 ◌-ℤ◌
drep_yes_share = refl

buckets_partition_example :
    let b = compute_drep_ledger_buckets dreps in
    b.yes_power + b.no_power + b.abstain_power + b.inactive ≡ max b.total (breakdown dreps)
buckets_partition_example = buckets_partition dreps

dreps_accounted : breakdown dreps ≤ as_big_int dreps.total_power
unfolding breakdown
dreps_accounted = omega arith

pools-new : uses_new_formula pools ≡ true
unfolding should_use_new_spo_formula epoch_uses_new_formula
pools-new = refl

old_pools-old : uses_new_formula old_pools ≡ false
unfolding should_use_new_spo_formula epoch_uses_new_formula
old_pools-old = refl

pools-IsConsistent : IsConsistent pools
pools-IsConsistent = inr (omega arith)

new_formula_partition_example :
    let b = compute_spo_ledger_buckets pools in
    b.yes_power + b.no_power + b.abstain_power + omitted pools ≡ b.effective_total
new_formula_partition_example = new_formula_partition pools pools-new pools-IsConsistent
