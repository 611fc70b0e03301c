-- ===== src/Ledger/Spo.antt =====
-- The buckets of `computeSpoLedgerBuckets`, by era and by kind of action.
use cgov_api.Prelude.{
  ℕ, ◌+◌, ◌-◌, ◌≤◌, ◌≡◌, ◌⊎◌, refl, Option-cases, inl, inr, Bool, true, false, Option, none, arith,
  ◌||◌, if◌then◌else◌,
}
use cgov_api.Prelude.Int.{pos, ◌-ℤ◌, max_zero, max_zero-sub, sub_of_le}
use cgov_api.Governance.{is_no_confidence, is_hard_fork}
use cgov_api.Ledger.{
  pct2, SpoVotePower, as_big_int, should_use_new_spo_formula, compute_spo_ledger_buckets,
  spo_breakdown_sum, spo_effective_total, spo_not_voted_raw,
}
use cgov_api.Ledger.Percent.{ShareWhole, pct2-ShareWhole, ShareThree, pct2-ShareThree}

-- Koios' no power covers the explicit no votes and the standing no-confidence power.
abbrev pub IsConsistent : SpoVotePower → Type 0
IsConsistent p =
    (p.no_vote_power ≡ none)
    ⊎ (as_big_int p.active_no_power + as_big_int p.always_no_confidence_power
        ≤ as_big_int p.no_vote_power)

abbrev pub uses_new_formula : SpoVotePower → Bool
uses_new_formula p = should_use_new_spo_formula p.proposal_id p.submission_epoch

-- The effective total is what the record accounts for, with the power that did not vote.
effective_total_covers :
    (p : SpoVotePower)
    → IsConsistent p
    → spo_breakdown_sum p + max_zero (spo_not_voted_raw p) ≡ spo_effective_total p
unfolding spo_breakdown_sum spo_effective_total spo_not_voted_raw
effective_total_covers p c = elim (Option-cases p.no_vote_power) [
  | inl e ↦ rw e (simp max_zero-sub (omega arith))
  | inr (k, e) ↦ rw e (simp max_zero-sub (ground (arith, e)))
]

-- Power that the new formula puts in no bucket.
abbrev pub omitted : SpoVotePower → ℕ
omitted p =
    if is_hard_fork p.governance_type || is_no_confidence p.governance_type
    then 0
    else as_big_int p.always_no_confidence_power

-- Under the new formula, on consistent figures, the yes, no and abstain power add up to the
-- effective total on a hard fork and on a motion of no confidence; on any other action the standing
-- no-confidence power is missing from the sum.
pub new_formula_partition :
    (p : SpoVotePower)
    → uses_new_formula p ≡ true
    → IsConsistent p
    → let b = compute_spo_ledger_buckets p in
      b.yes_power + b.no_power + b.abstain_power + omitted p ≡ b.effective_total
unfolding compute_spo_ledger_buckets spo_breakdown_sum
new_formula_partition p new c = ground (arith, new, effective_total_covers p c)

-- In both eras the three distribution percentages share the counted power up to two hundredths of
-- a percent.
pub spo_dist_ShareThree :
    (p : SpoVotePower)
    → let b = compute_spo_ledger_buckets p in
      ShareThree b.yes_dist_pct b.no_dist_pct b.abstain_dist_pct
        (b.yes_power + b.no_power + b.abstain_power)
unfolding compute_spo_ledger_buckets
spo_dist_ShareThree p = pct2-ShareThree _ _ _ _ refl

outcome_of_partition :
    (y n a e : ℕ)
    → y + n + a ≡ e
    → ShareWhole (pct2 y (pos e -ℤ pos a)) (pct2 n (pos e -ℤ pos a)) (y + n)
outcome_of_partition y n a e h =
    rw (sub_of_le e a (omega arith)) (rw (rest y n a e h) (pct2-ShareWhole y n (y + n) refl))
  where
    rest : (y n a e : ℕ) → y + n + a ≡ e → e - a ≡ y + n
    rest y n a e h = omega arith

new_formula_denominator :
    (p : SpoVotePower)
    → uses_new_formula p ≡ true
    → let b = compute_spo_ledger_buckets p in
      let d = pos b.effective_total -ℤ pos b.abstain_power in
      (b.yes_outcome_pct ≡ pct2 b.yes_power d) × (b.no_outcome_pct ≡ pct2 b.no_power d)
unfolding compute_spo_ledger_buckets
new_formula_denominator p new = rw new (refl, refl)

-- Under the new formula, on consistent figures, the outcome percentages of a hard fork and of a
-- motion of no confidence share the yes and no power up to one hundredth of a percent.
pub spo_outcome_ShareWhole :
    (p : SpoVotePower)
    → uses_new_formula p ≡ true
    → IsConsistent p
    → (is_hard_fork p.governance_type || is_no_confidence p.governance_type) ≡ true
    → let b = compute_spo_ledger_buckets p in
      ShareWhole b.yes_outcome_pct b.no_outcome_pct (b.yes_power + b.no_power)
spo_outcome_ShareWhole p new c counted =
    rw ((new_formula_denominator p new).0, (new_formula_denominator p new).1)
      (outcome_of_partition _ _ _ _ (ground (arith, new_formula_partition p new c)))

-- Before the transition neither the stored total nor Koios' no power moves a bucket or a
-- percentage.
pub old_formula_ignores_silence :
    (p : SpoVotePower) (total no_vote : Option ℕ)
    → uses_new_formula p ≡ false
    → let b = compute_spo_ledger_buckets p in
      let q =
        compute_spo_ledger_buckets (record p { total_power = total; no_vote_power = no_vote }) in
      (q.yes_power ≡ b.yes_power)
      × (q.no_power ≡ b.no_power)
      × (q.abstain_power ≡ b.abstain_power)
      × (q.yes_outcome_pct ≡ b.yes_outcome_pct)
      × (q.no_outcome_pct ≡ b.no_outcome_pct)
unfolding compute_spo_ledger_buckets
old_formula_ignores_silence p total no_vote old = rw old (refl, refl, refl, refl, refl)
