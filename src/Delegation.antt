-- ===== src/Delegation.antt =====
-- The pure core of src/services/ingestion/delegation-sync.service.ts that reads a stake address's account
-- updates: their order, the DRep that an update names, the log of changes of DRep, and the choice
-- between candidates by history. Epochs and slots are natural numbers.
pub mod ChangeLog
pub mod Order
pub mod ClearGuard
mod Tests
use text.Mathlib.Text.{◌==◌ as str_eq}
use cgov_api.Prelude.{
  [], ℕ, Bool, false, Option, none, some, String, List, ◌∷◌, ◌++◌, filter, ◌||◌, ◌or_else◌,
  ◌or_maybe◌, if◌then◌else◌,
}
use cgov_api.Prelude.Int.{ℤ, pos, negsuc, ltb_ℤ}

pub record UpdateInfo : Type 0 where
  pub delegated_drep : Option String
  pub drep_id : Option String
  pub drep : Option String

-- `action_mentions` is `action_type?.includes`.
pub record AccountUpdate : Type 0 where
  pub action_mentions : String → Bool
  pub tx_hash : Option String
  pub epoch_no : Option ℕ
  pub epoch_slot : Option ℕ
  pub absolute_slot : Option ℕ
  pub block_time : Option ℕ
  pub delegated_drep : Option String
  pub drep_id : Option String
  pub drep : Option String
  pub info : Option UpdateInfo

info_drep : Option UpdateInfo → Option String
info_drep none = none
info_drep (some i) = i.delegated_drep or_maybe i.drep_id or_maybe i.drep

pub extract_delegated_drep_id : AccountUpdate → Option String
unfolding info_drep
extract_delegated_drep_id e =
    e.delegated_drep or_maybe e.drep_id or_maybe e.drep or_maybe info_drep e.info

-- `x ?? -1`
abbrev or_minus_one : Option ℕ → ℤ
or_minus_one none = negsuc 0
or_minus_one (some n) = pos n

-- Whether the comparator of `sortAccountUpdates` is negative.
pub precedes : AccountUpdate → AccountUpdate → Bool
precedes a b =
    let before = λ (x y : Option ℕ). ltb_ℤ (or_minus_one x) (or_minus_one y) in
    let differ = λ (x y : Option ℕ). before x y || before y x in
    if differ a.epoch_no b.epoch_no
    then before a.epoch_no b.epoch_no
    else if differ a.epoch_slot b.epoch_slot
    then before a.epoch_slot b.epoch_slot
    else if differ a.absolute_slot b.absolute_slot
    then before a.absolute_slot b.absolute_slot
    else before a.block_time b.block_time

-- `Array.prototype.sort` is stable: an element stays before those after it that the comparator does not
-- put before it.
insert_update : AccountUpdate → List AccountUpdate → List AccountUpdate
insert_update x [] = x ∷ []
insert_update x (y ∷ ys) = if precedes y x then y ∷ insert_update x ys else x ∷ y ∷ ys

pub sort_account_updates : List AccountUpdate → List AccountUpdate
unfolding insert_update
sort_account_updates [] = []
sort_account_updates (x ∷ xs) = insert_update x (sort_account_updates xs)

-- A string that is neither null nor empty.
pub truthy_id : Option String → Option String
truthy_id none = none
truthy_id (some s) = if str_eq s "" then none else some s

is_delegation : AccountUpdate → Bool
is_delegation e = e.action_mentions "delegation_drep"

pub record DelegatorCandidate {ℓ} (A : Type ℓ) : Type ℓ where
  pub candidate_drep : String
  pub delegator : A

-- `filter`, `reverse` and `find`: the last update that names a DRep.
last_named : Option String → List AccountUpdate → Option String
last_named found [] = found
last_named found (e ∷ es) = last_named (truthy_id (extract_delegated_drep_id e) or_maybe found) es

pub latest_delegated_drep : List AccountUpdate → Option String
unfolding last_named is_delegation
latest_delegated_drep entries =
    last_named none (filter is_delegation (sort_account_updates entries))

find_candidate {ℓ} :
    {A : Type ℓ} → String → List (DelegatorCandidate A) → Option (DelegatorCandidate A)
find_candidate id [] = none
find_candidate id (c ∷ cs) = if str_eq c.candidate_drep id then some c else find_candidate id cs

-- Without entries the code returns null before it sorts, as it does for a history that names no
-- DRep.
pub resolve_conflict_with_history {ℓ} :
    {A : Type ℓ} → List (DelegatorCandidate A) → List AccountUpdate → Option (DelegatorCandidate A)
unfolding find_candidate
resolve_conflict_with_history candidates entries = elim (latest_delegated_drep entries) [
  | none ↦ none
  | some id ↦ find_candidate id candidates
]

pub record Change : Type 0 where
  pub stake_address : String
  pub from_drep_id : String
  pub to_drep_id : String
  pub delegated_epoch : ℤ

-- `changes`, `lastDrepId` and `lastEpoch`.
pub record LogState : Type 0 where
  pub changes : List Change
  pub last_drep_id : Option String
  pub last_epoch : Option ℕ

abbrev pub empty_log : LogState
empty_log = record { changes = []; last_drep_id = none; last_epoch = none }

-- `txHashToDrepId.get(entry.tx_hash)`, for a hash that is not empty.
drep_of_transaction : (String → Option String) → Option String → Option String
drep_of_transaction get none = none
drep_of_transaction get (some hash) = if str_eq hash "" then none else get hash

drep_of_entry : (String → Option String) → AccountUpdate → Option String
unfolding drep_of_transaction
drep_of_entry get e = extract_delegated_drep_id e or_maybe drep_of_transaction get e.tx_hash

same_drep : String → Option String → Bool
same_drep id none = false
same_drep id (some last) = str_eq id last

note_drep : String → AccountUpdate → Option String → LogState → LogState
unfolding same_drep
note_drep stake e none s = s
note_drep stake e (some id) s = if same_drep id s.last_drep_id then s else record {
  changes =
      s.changes
      ++ record {
        stake_address = stake;
        from_drep_id = s.last_drep_id or_else "";
        to_drep_id = id;
        delegated_epoch = or_minus_one e.epoch_no;
      }
        ∷ [];
  last_drep_id = some id;
  last_epoch = e.epoch_no;
}

log_entry : String → (String → Option String) → AccountUpdate → LogState → LogState
unfolding note_drep drep_of_entry is_delegation
log_entry stake get e s =
    if is_delegation e then note_drep stake e (truthy_id (drep_of_entry get e)) s else s

log_entries : String → (String → Option String) → List AccountUpdate → LogState → LogState
unfolding log_entry
log_entries stake get [] s = s
log_entries stake get (e ∷ es) s = log_entries stake get es (log_entry stake get e s)

-- The log of a stake address, with `latest` in its last two fields.
pub build_drep_change_log_for_stake :
    String → List AccountUpdate → (String → Option String) → LogState
unfolding log_entries
build_drep_change_log_for_stake stake entries get =
    log_entries stake get (sort_account_updates entries) empty_log
