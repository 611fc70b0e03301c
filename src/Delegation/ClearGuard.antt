-- ===== src/Delegation/ClearGuard.antt =====
-- `evaluateClearGuard` of src/services/ingestion/delegation-sync.service.ts, which decides whether a run
-- may clear delegations that its snapshot does not have. The printing of counts is a parameter, and
-- so is the arithmetic of the two ratios. Of a checkpoint only what the guard reads again is kept;
-- `parseClearGuardCheckpoint` gives it back, or nothing.
pub mod Confirmation
use text.Mathlib.Text.{◌==◌ as str_eq}
use Prim.Native.String
use cgov_api.Prelude.{
  [], ℕ, Bool, true, false, Option, none, some, String, List, ◌∷◌, ◌++◌, ltb, leb, ◌==◌, ◌&&◌,
  if◌then◌else◌,
}
use cgov_api.Prelude.Int.{pos}
use cgov_api.Mapper.Numbers.{Double}

pub data Reason : Type 0 where
  low_coverage_ratio high_clear_ratio empty_snapshot_with_active_state : Reason
  invalid_snapshot_cardinality : Reason

pub record Counts : Type 0 where
  pub active_delegation_state_count : ℕ
  pub snapshot_stake_count : ℕ
  pub to_clear_count : ℕ
  pub phase1_delegator_rows : ℕ

pub record ClearGuardCheckpoint : Type 0 where
  pub pending_confirmation : Bool
  pub fingerprint : String

pub record Verdict : Type 0 where
  pub allow_clear : Bool
  pub confirmed_by_second_run : Bool
  pub reasons : List Reason
  pub checkpoint : ClearGuardCheckpoint

abbrev pub clear_baseline_min_active_stakes : ℕ
clear_baseline_min_active_stakes = 200

abbrev reason_if : Bool → Reason → List Reason
reason_if b r = if b then r ∷ [] else []

no_reasons : List Reason → Bool
no_reasons [] = true
no_reasons (r ∷ rs) = false

confirms : Option ClearGuardCheckpoint → String → Bool
confirms none fingerprint = false
confirms (some prior) fingerprint =
    prior.pending_confirmation && str_eq prior.fingerprint fingerprint

-- The answer to the reasons found, with the fingerprint of the counts.
decide_clear : List Reason → String → Option ClearGuardCheckpoint → Verdict
unfolding no_reasons confirms
decide_clear reasons fingerprint prior =
    let confirmed = confirms prior fingerprint in
    if no_reasons reasons
    then record {
      allow_clear = true;
      confirmed_by_second_run = false;
      reasons = reasons;
      checkpoint = record { pending_confirmation = false; fingerprint = fingerprint };
    }
    else record {
      allow_clear = confirmed;
      confirmed_by_second_run = confirmed;
      reasons = reasons;
      checkpoint = record { pending_confirmation = true; fingerprint = fingerprint };
    }

module _ (d : Double) (print : ℕ → String) where
  open d use {Num, of_ℤ, of_hundredths, div, lt}

  pub build_clear_guard_fingerprint : Counts → String
  build_clear_guard_fingerprint c = String.◌++◌ (print c.active_delegation_state_count) (
      String.◌++◌ "|"
        (String.◌++◌ (print c.snapshot_stake_count) (String.◌++◌ "|" (print c.to_clear_count))))

  -- The share of the active delegations, or `other` where there are none.
  ratio : ℕ → ℕ → ℕ → Num
  ratio n active other =
      if ltb 0 active then div (of_ℤ (pos n)) (of_ℤ (pos active)) else of_ℤ (pos other)

  pub guard_reasons : Counts → List Reason
  unfolding ratio
  guard_reasons c =
      let active = c.active_delegation_state_count in
      let baseline = leb clear_baseline_min_active_stakes active in
      let coverage_ratio = ratio c.snapshot_stake_count active 1 in
      let clear_ratio = ratio c.to_clear_count active 0 in
      reason_if (baseline && lt coverage_ratio (of_hundredths 90)) low_coverage_ratio
      ++ reason_if (baseline && lt (of_hundredths 35) clear_ratio) high_clear_ratio
      ++ reason_if (baseline && c.snapshot_stake_count == 0) empty_snapshot_with_active_state
      ++ reason_if (ltb c.phase1_delegator_rows c.snapshot_stake_count) invalid_snapshot_cardinality

  pub evaluate_clear_guard : Counts → Option ClearGuardCheckpoint → Verdict
  unfolding guard_reasons build_clear_guard_fingerprint decide_clear
  evaluate_clear_guard c prior =
      decide_clear (guard_reasons c) (build_clear_guard_fingerprint c) prior
