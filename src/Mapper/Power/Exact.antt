-- ===== src/Mapper/Power/Exact.antt =====
-- `buildDrepVoteInfo` against `computeDrepLedgerBuckets`, on safe integers.
use cgov_api.Prelude.{
  ℕ, ◌+◌, ◌^◌, ◌≤◌, ◌≡◌, refl, ap, ◌∙◌, Option, none, some, Bool-cases, inl, inr, arith,
}
use cgov_api.Prelude.Int.{
  ℤ, pos, pos_part, neg_part, ◌-ℤ◌, max_zero, size_le, sub_parts, add_pos, max_with_zero,
}
use cgov_api.Governance.{is_no_confidence}
use cgov_api.Ledger.{DrepVotePower, as_big_int, drep_not_voted_raw, compute_drep_ledger_buckets}
use cgov_api.Ledger.Drep.{breakdown, not_voted_lem, buckets_partition}
use cgov_api.Mapper.Numbers.{Double, IsExact}
use cgov_api.Mapper.Power.{nat, to_number, percent_of}
use cgov_api.Mapper.Power.Drep.{drep_yes_total, drep_no_total, drep_not_voted, build_drep_vote_info}

abbrev pub safe_limit : ℕ
safe_limit = 2 ^ 53

module _ (d : Double) (e : IsExact d) where
  open d use {Num, of_ℤ, add, sub, max, round_text, to_fixed2}

  to_number-nat : (v : Option ℕ) → to_number d v ≡ nat d (as_big_int v)
  to_number-nat none = refl
  to_number-nat (some n) = refl

  sub_nat :
      (z : ℤ) (n : ℕ)
      → pos_part z ≤ safe_limit
      → neg_part z + n ≤ safe_limit
      → sub (of_ℤ z) (nat d n) ≡ of_ℤ (z -ℤ pos n)
  sub_nat z n h k = e.sub_exact z (pos n) (size_le z safe_limit h (omega arith)) (omega arith) (
      size_le (z -ℤ pos n) safe_limit (omega (arith, sub_parts z n)) (omega (arith, sub_parts z n)))

  add_nat : (m n : ℕ) → m + n ≤ safe_limit → add (nat d m) (nat d n) ≡ nat d (m + n)
  add_nat m n h =
      e.add_exact (pos m) (pos n) (omega arith) (omega arith) (rw (add_pos m n) (omega arith))
      ∙ ap of_ℤ (add_pos m n)

  max_nat :
      (z : ℤ) → pos_part z + neg_part z ≤ safe_limit → max (nat d 0) (of_ℤ z) ≡ nat d (max_zero z)
  max_nat z h = e.max_exact (pos 0) z (omega arith) h ∙ ap of_ℤ (max_with_zero z)

  -- The number `x` is the integer `z`, which is safe and at least `-b`.
  abbrev Holds : Num → ℤ → ℕ → Type 0
  Holds x z b = (x ≡ of_ℤ z) × (pos_part z ≤ safe_limit) × (neg_part z ≤ b)

  start : (v : Option ℕ) → as_big_int v ≤ safe_limit → Holds (to_number d v) (pos (as_big_int v)) 0
  start v h = (to_number-nat v, h, omega arith)

  step :
      {x : Num} {z : ℤ} {b : ℕ} (v : Option ℕ)
      → Holds x z b
      → b + as_big_int v ≤ safe_limit
      → Holds (sub x (to_number d v)) (z -ℤ pos (as_big_int v)) (b + as_big_int v)
  step {z} v (same, below, above) h = (
    rw (same, to_number-nat v) (sub_nat z (as_big_int v) below (omega arith)),
    omega (arith, sub_parts z (as_big_int v)),
    omega (arith, sub_parts z (as_big_int v)),
  )

  module _ (p : DrepVotePower) (total_safe : as_big_int p.total_power ≤ safe_limit)
      (parts_safe : breakdown p ≤ safe_limit) where
    drep_not_voted-exact : Holds (drep_not_voted d p) (drep_not_voted_raw p) (breakdown p)
    unfolding drep_not_voted drep_not_voted_raw breakdown
    drep_not_voted-exact =
        let h =
          step p.inactive_power
            (step p.always_no_confidence_power
              (step p.always_abstain_power
                (step p.active_abstain_power
                  (step p.active_no_power
                    (step p.active_yes_power (start p.total_power total_safe) (omega arith))
                    (omega arith))
                  (omega arith))
                (omega arith))
              (omega arith))
            (omega arith) in
        (h.0, h.1, omega (arith, h.2))

    not_voted-exact : max (nat d 0) (drep_not_voted d p) ≡ nat d (max_zero (drep_not_voted_raw p))
    not_voted-exact =
        let (same, below, above) = drep_not_voted-exact in
        rw same (
          max_nat (drep_not_voted_raw p)
            (size_le (drep_not_voted_raw p) safe_limit below (omega arith)))

    sum_nat :
        (v w : Option ℕ)
        → as_big_int v + as_big_int w ≤ safe_limit
        → add (to_number d v) (to_number d w) ≡ nat d (as_big_int v + as_big_int w)
    sum_nat v w h = rw (to_number-nat v, to_number-nat w) (add_nat (as_big_int v) (as_big_int w) h)

    yes_total-exact : drep_yes_total d p ≡ nat d (compute_drep_ledger_buckets p).yes_power
    unfolding drep_yes_total compute_drep_ledger_buckets breakdown
    yes_total-exact = elim (Bool-cases (is_no_confidence p.governance_type)) [
      | inl nc ↦ rw nc (sum_nat p.active_yes_power p.always_no_confidence_power (omega arith))
      | inr other ↦ rw other (to_number-nat p.active_yes_power)
    ]

    no_total-exact : drep_no_total d p ≡ nat d (compute_drep_ledger_buckets p).no_power
    unfolding drep_no_total compute_drep_ledger_buckets breakdown
    no_total-exact = elim (Bool-cases (is_no_confidence p.governance_type)) [
      | inl nc ↦
          rw (nc, not_voted-exact, to_number-nat p.active_no_power)
            (add_nat (as_big_int p.active_no_power) _ (omega (arith, not_voted_lem p)))
      | inr other ↦
          rw
            (
              other,
              not_voted-exact,
              sum_nat p.active_no_power p.always_no_confidence_power (omega arith),
            )
            (add_nat (as_big_int p.active_no_power + as_big_int p.always_no_confidence_power) _
              (omega (arith, not_voted_lem p)))
    ]

    abstain-exact :
        add (to_number d p.active_abstain_power) (to_number d p.always_abstain_power)
        ≡ nat d (compute_drep_ledger_buckets p).abstain_power
    unfolding compute_drep_ledger_buckets breakdown
    abstain-exact = sum_nat p.active_abstain_power p.always_abstain_power (omega arith)

    not_voted_bucket :
        max (nat d 0) (drep_not_voted d p) ≡ nat d (compute_drep_ledger_buckets p).not_voted
    unfolding compute_drep_ledger_buckets
    not_voted_bucket = not_voted-exact

    total_bucket : (compute_drep_ledger_buckets p).total ≡ as_big_int p.total_power
    unfolding compute_drep_ledger_buckets
    total_bucket = refl

    denominator-exact :
        add (drep_yes_total d p) (drep_no_total d p)
        ≡ nat d
            ((compute_drep_ledger_buckets p).yes_power + (compute_drep_ledger_buckets p).no_power)
    denominator-exact =
        rw (yes_total-exact, no_total-exact)
          (add_nat (compute_drep_ledger_buckets p).yes_power
            (compute_drep_ledger_buckets p).no_power
            (omega (arith, buckets_partition p, total_bucket)))

    -- Where the total and the power that the record accounts for are safe integers, the lovelace
    -- figures of the mapper are the buckets of the ledger arithmetic; its yes and no percentages are
    -- those of the yes and no buckets over the sum of these two, and its abstain percentage that of
    -- the abstain bucket over the total.
    pub drep_info-refines :
        let b = compute_drep_ledger_buckets p in
        let info = build_drep_vote_info d p in
        (info.yes_lovelace ≡ round_text (nat d b.yes_power))
        × (info.no_lovelace ≡ round_text (nat d b.no_power))
        × (info.abstain_lovelace ≡ round_text (nat d b.abstain_power))
        × (info.breakdown.not_voted ≡ round_text (nat d b.not_voted))
        × (info.yes_percent
            ≡ to_fixed2 (percent_of d (nat d b.yes_power) (nat d (b.yes_power + b.no_power))))
        × (info.no_percent
            ≡ to_fixed2 (percent_of d (nat d b.no_power) (nat d (b.yes_power + b.no_power))))
        × (info.abstain_percent ≡ to_fixed2 (percent_of d (nat d b.abstain_power) (nat d b.total)))
    unfolding build_drep_vote_info
    drep_info-refines = (
      ap round_text yes_total-exact,
      ap round_text no_total-exact,
      ap round_text abstain-exact,
      ap round_text not_voted_bucket,
      rw (denominator-exact, yes_total-exact),
      rw (denominator-exact, no_total-exact),
      rw (abstain-exact, to_number-nat p.total_power, total_bucket),
    )
