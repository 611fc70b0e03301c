-- ===== src/Governance.antt =====
-- The enumerations of prisma/schema.prisma, as the generated client gives them to src/.
use cgov_api.Prelude.{Bool, true, false, Option, some}

pub data GovernanceType : Type 0 where
  info_action treasury_withdrawals new_constitution hard_fork_initiation : GovernanceType
  protocol_parameter_change no_confidence update_committee : GovernanceType

pub data ProposalStatus : Type 0 where
  active ratified enacted expired dropped closed : ProposalStatus

pub data VoteType : Type 0 where
  yes_vote no_vote abstain_vote : VoteType

pub data VoterType : Type 0 where
  drep spo cc : VoterType

-- `type === GovernanceType.NO_CONFIDENCE`.
abbrev pub is_no_confidence : Option GovernanceType → Bool
is_no_confidence (some no_confidence) = true
is_no_confidence _ = false

-- `type === GovernanceType.HARD_FORK_INITIATION`.
abbrev pub is_hard_fork : Option GovernanceType → Bool
is_hard_fork (some hard_fork_initiation) = true
is_hard_fork _ = false
