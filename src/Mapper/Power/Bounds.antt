-- ===== src/Mapper/Power/Bounds.antt =====
-- The range of the percentages of `buildDrepVoteInfo`.
use cgov_api.Prelude.{ℕ, ◌≡◌, true, Option, none, some, Bool-cases, inl, inr}
use cgov_api.Ledger.{DrepVotePower}
use cgov_api.Governance.{is_no_confidence}
use cgov_api.Mapper.Numbers.{Double, IsOrdered, InRange}
use cgov_api.Mapper.Power.{nat, to_number, percent_of}
use cgov_api.Mapper.Power.Drep.{drep_yes_total, drep_no_total, build_drep_vote_info}

module _ (d : Double) (o : IsOrdered d) where
  open d use {Num, add, lt, le, max}
  open o use {
    of_nonneg, zero_le_hundred, add_nonneg, le_add_right, le_add_left, max_nonneg, div_nonneg,
    div_le_one, percent_nonneg, percent_le, fixed_InRange,
  }

  percent_of-InRange :
      (x y : Num) → le (nat d 0) x ≡ true → le x y ≡ true → InRange d (percent_of d x y)
  unfolding percent_of
  percent_of-InRange x y p q = elim (Bool-cases (lt (nat d 0) y)) [
    | inl positive ↦
        rw positive
          (percent_nonneg _ (div_nonneg x y p positive), percent_le _ (div_le_one x y q positive))
    | inr not_positive ↦ rw not_positive (of_nonneg 0, zero_le_hundred)
  ]

  to_number-nonneg : (v : Option ℕ) → le (nat d 0) (to_number d v) ≡ true
  to_number-nonneg none = of_nonneg 0
  to_number-nonneg (some n) = of_nonneg n

  drep_yes_total-nonneg : (p : DrepVotePower) → le (nat d 0) (drep_yes_total d p) ≡ true
  unfolding drep_yes_total
  drep_yes_total-nonneg p = elim (Bool-cases (is_no_confidence p.governance_type)) [
    | inl nc ↦ rw nc (add_nonneg _ _ (to_number-nonneg _) (to_number-nonneg _))
    | inr other ↦ rw other (to_number-nonneg _)
  ]

  drep_no_total-nonneg : (p : DrepVotePower) → le (nat d 0) (drep_no_total d p) ≡ true
  unfolding drep_no_total
  drep_no_total-nonneg p = elim (Bool-cases (is_no_confidence p.governance_type)) [
    | inl nc ↦ rw nc (add_nonneg _ _ (to_number-nonneg _) (max_nonneg _))
    | inr other ↦
        rw other
          (add_nonneg _ _ (add_nonneg _ _ (to_number-nonneg _) (to_number-nonneg _)) (max_nonneg _))
  ]

  -- Whatever the stored power, the yes and no percentages of the DReps lie between 0 and 100.
  pub drep_percents-InRange :
      (p : DrepVotePower)
      → let info = build_drep_vote_info d p in
        InRange d info.yes_percent × InRange d info.no_percent
  unfolding build_drep_vote_info
  drep_percents-InRange p =
      let y = drep_yes_total-nonneg p in
      let n = drep_no_total-nonneg p in
      (
        fixed_InRange _ (percent_of-InRange _ _ y (le_add_right _ _ y n)),
        fixed_InRange _ (percent_of-InRange _ _ n (le_add_left _ _ y n)),
      )
