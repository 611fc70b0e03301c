-- ===== src/Delegation/Tests.antt =====
-- A history of three updates, the last one first.
use mathlib.Core.List.{Perm}
use cgov_api.Prelude.{[], filter, ◌↔◌, ◌⊎◌, ℕ, true, ◌≡◌, Option, none, some, String, List, ◌∷◌}
use cgov_api.Delegation.{
  AccountUpdate, sort_account_updates, build_drep_change_log_for_stake, latest_delegated_drep,
}
use cgov_api.Mapper.Tests.{whole_numbers}
use cgov_api.Delegation.ClearGuard.{Counts, evaluate_clear_guard}
use cgov_api.Delegation.ClearGuard.Confirmation.{IsSafe, IsSecondRun, clears_iff}
use cgov_api.Delegation.Order.{level, IsOrdered, sort_account_updates-IsOrdered}
use cgov_api.Delegation.ChangeLog.{IsChain, change_log-IsChain, log_agrees_with_history}

abbrev update : ℕ → String → AccountUpdate
update epoch drep_name = record {
  action_mentions = λ s. true;
  tx_hash = none;
  epoch_no = some epoch;
  epoch_slot = none;
  absolute_slot = none;
  block_time = none;
  delegated_drep = some drep_name;
  drep_id = none;
  drep = none;
  info = none;
}

abbrev history : List AccountUpdate
history = update 502 "drep2" ∷ update 500 "drep1" ∷ update 501 "drep1" ∷ []

abbrev no_transactions : String → Option String
no_transactions hash = none

change_log-IsChain_example :
    let log = build_drep_change_log_for_stake "stake1" history no_transactions in
    IsChain none log.changes log.last_drep_id
change_log-IsChain_example = change_log-IsChain "stake1" no_transactions history

log_agrees_with_history_example :
    (build_drep_change_log_for_stake "stake1" history (λ _. none)).last_drep_id
    ≡ latest_delegated_drep history
log_agrees_with_history_example = log_agrees_with_history "stake1" history

sort_account_updates-IsOrdered_example :
    IsOrdered (sort_account_updates history)
    × Perm (sort_account_updates history) history
    × (filter (level (update 500 "drep1")) (sort_account_updates history)
        ≡ filter (level (update 500 "drep1")) history)
sort_account_updates-IsOrdered_example = sort_account_updates-IsOrdered history (update 500 "drep1")

-- A thousand delegations are active, and none is in the snapshot.
abbrev counts : Counts
counts = record {
  active_delegation_state_count = 1000;
  snapshot_stake_count = 0;
  to_clear_count = 1000;
  phase1_delegator_rows = 0;
}

abbrev print_count : ℕ → String
print_count n = "n"

clears_iff_example :
    ((evaluate_clear_guard whole_numbers print_count counts none).allow_clear ≡ true)
    ↔ (IsSafe whole_numbers print_count counts ⊎ IsSecondRun whole_numbers print_count none counts)
clears_iff_example = clears_iff whole_numbers print_count counts none
