-- ===== src/Ledger/Drep.antt =====
-- The buckets of `computeDrepLedgerBuckets` and their percentages.
use cgov_api.Prelude.{ℕ, ◌+◌, ◌-◌, ◌≤◌, ◌≡◌, max, refl, some, arith}
use cgov_api.Prelude.Int.{max_zero, max_zero-sub, sub_of_le}
use cgov_api.Governance.{no_confidence, is_no_confidence}
use cgov_api.Ledger.{DrepVotePower, as_big_int, drep_not_voted_raw, compute_drep_ledger_buckets}
use cgov_api.Ledger.Percent.{ShareWhole, pct2-ShareWhole, ShareThree, pct2-ShareThree}
use mathlib.Core.Bool.{false}

-- The vote power that the record accounts for.
unfoldable pub breakdown : DrepVotePower → ℕ
breakdown p =
    as_big_int p.active_yes_power
    + as_big_int p.active_no_power
    + as_big_int p.active_abstain_power
    + as_big_int p.always_abstain_power
    + as_big_int p.always_no_confidence_power
    + as_big_int p.inactive_power

pub not_voted_lem :
    (p : DrepVotePower) → max_zero (drep_not_voted_raw p) ≡ as_big_int p.total_power - breakdown p
unfolding drep_not_voted_raw breakdown
not_voted_lem p = simp max_zero-sub (omega arith)

-- The yes, no, abstain and inactive power add up to the stored total, or to the power that the
-- record accounts for where that is more.
pub buckets_partition :
    (p : DrepVotePower)
    → let b = compute_drep_ledger_buckets p in
      b.yes_power + b.no_power + b.abstain_power + b.inactive ≡ max b.total (breakdown p)
unfolding compute_drep_ledger_buckets drep_not_voted_raw breakdown
buckets_partition p = simp max_zero-sub (ground arith)

-- The two outcome percentages share the yes and no power up to one hundredth of a percent, and
-- are both null exactly when there is no such power.
pub outcome_ShareWhole :
    (p : DrepVotePower)
    → let b = compute_drep_ledger_buckets p in
      ShareWhole b.yes_outcome_pct b.no_outcome_pct (b.yes_power + b.no_power)
unfolding compute_drep_ledger_buckets
outcome_ShareWhole p = pct2-ShareWhole _ _ _ refl

-- Where the record accounts for no more than the stored total, the three distribution percentages
-- share the active power up to two hundredths of a percent.
pub dist_ShareThree :
    (p : DrepVotePower)
    → breakdown p ≤ as_big_int p.total_power
    → let b = compute_drep_ledger_buckets p in
      ShareThree b.yes_dist_pct b.no_dist_pct b.abstain_dist_pct (b.total - b.inactive)
unfolding compute_drep_ledger_buckets drep_not_voted_raw breakdown
dist_ShareThree p h =
    rw (sub_of_le (as_big_int p.total_power) (as_big_int p.inactive_power) (omega arith))
      (pct2-ShareThree _ _ _ _ (simp max_zero-sub (ground arith)))

-- On a motion of no confidence the standing no-confidence power changes sides, and nothing else
-- moves.
pub no_confidence_changes_sides :
    (p : DrepVotePower)
    → is_no_confidence p.governance_type ≡ false
    → let b = compute_drep_ledger_buckets p in
      let m = compute_drep_ledger_buckets (record p { governance_type = some no_confidence }) in
      (m.yes_power ≡ b.yes_power + as_big_int p.always_no_confidence_power)
      × (m.no_power + as_big_int p.always_no_confidence_power ≡ b.no_power)
      × (m.abstain_power ≡ b.abstain_power)
      × (m.not_voted ≡ b.not_voted)
unfolding compute_drep_ledger_buckets drep_not_voted_raw
no_confidence_changes_sides p h = rw h (omega arith, omega arith, refl, refl)
