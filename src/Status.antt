-- ===== src/Status.antt =====
-- src/services/ingestion/proposalStatus.policy.ts: the type and the status of a Koios proposal.
-- An epoch is a natural number. Of the table of `mapGovernanceType` only its own keys are modelled,
-- not those that a JavaScript object inherits.
pub mod Progress
pub mod Withdrawal
mod Tests
use text.Mathlib.Text.{◌==◌ as str_eq}
use cgov_api.Prelude.{
  ℕ, Bool, true, false, Option, none, some, String, ltb, leb, not, ◌&&◌, ◌==◌, if◌then◌else◌,
}
use cgov_api.Governance.{
  GovernanceType, protocol_parameter_change, hard_fork_initiation, treasury_withdrawals,
  no_confidence, update_committee, new_constitution, info_action, ProposalStatus, active, ratified,
  enacted, expired, dropped, closed,
}

pub map_governance_type : Option String → Option GovernanceType
map_governance_type none = none
map_governance_type (some t) =
    if str_eq t "ParameterChange"
    then some protocol_parameter_change
    else if str_eq t "HardForkInitiation"
    then some hard_fork_initiation
    else if str_eq t "TreasuryWithdrawals"
    then some treasury_withdrawals
    else if str_eq t "NoConfidence"
    then some no_confidence
    else if str_eq t "NewCommittee"
    then some update_committee
    else if str_eq t "NewConstitution"
    then some new_constitution
    else if str_eq t "InfoAction"
    then some info_action
    else none

pub record KoiosProposal : Type 0 where
  pub proposal_type : String
  pub ratified_epoch : Option ℕ
  pub enacted_epoch : Option ℕ
  pub dropped_epoch : Option ℕ
  pub expired_epoch : Option ℕ

-- `epoch && epoch <= currentEpoch`: the number 0 is falsy.
is_due : Option ℕ → ℕ → Bool
is_due none current = false
is_due (some epoch) current = not (epoch == 0) && leb epoch current

-- `expired_epoch == null || dropped_epoch < expired_epoch`.
precedes_expiry : ℕ → Option ℕ → Bool
precedes_expiry epoch none = true
precedes_expiry epoch (some expiry) = ltb epoch expiry

dropped_before_expiration : Option ℕ → Option ℕ → ℕ → Bool
unfolding precedes_expiry
dropped_before_expiration none expired_epoch current = false
dropped_before_expiration (some epoch) expired_epoch current =
    leb epoch current && precedes_expiry epoch expired_epoch

pub derive_proposal_status : KoiosProposal → ℕ → ProposalStatus
unfolding is_due dropped_before_expiration
derive_proposal_status p current =
    let is_info = str_eq p.proposal_type "InfoAction" in
    if is_due p.enacted_epoch current
    then enacted
    else if is_due p.ratified_epoch current
    then ratified
    else if dropped_before_expiration p.dropped_epoch p.expired_epoch current
    then (if is_info then closed else dropped)
    else if is_due p.expired_epoch current
    then (if is_info then closed else expired)
    else active
