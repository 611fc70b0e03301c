-- ===== src/Status/Progress.antt =====
-- How the derived status moves as epochs pass.
use cgov_api.Prelude.{◌⊎◌, ℕ, ◌≤◌, ◌<◌, ◌≡◌, ◌≢◌, true, false, Option, none, some, eq_iff, arith}
use cgov_api.Governance.{ProposalStatus, active, ratified, enacted, expired, dropped, closed}
use cgov_api.Status.{KoiosProposal, is_due, dropped_before_expiration, derive_proposal_status}

-- The stages of a proposal.
pub stage : ProposalStatus → ℕ
stage active = 0
stage dropped = 1
stage expired = 1
stage closed = 1
stage ratified = 2
stage enacted = 3

is_due_mono :
    (e : Option ℕ) {now later : ℕ} → now ≤ later → is_due e now ≡ true → is_due e later ≡ true
unfolding is_due
is_due_mono none h d = d
is_due_mono (some e) h d = ground arith

dropped_mono :
    (d x : Option ℕ) {now later : ℕ}
    → now ≤ later
    → dropped_before_expiration d x now ≡ true
    → dropped_before_expiration d x later ≡ true
unfolding dropped_before_expiration
dropped_mono none x h t = t
dropped_mono (some e) none h t = ground arith
dropped_mono (some e) (some y) h t = ground arith

-- Once the expiry is due, a later epoch finds no new drop before it.
dropped_settled :
    (d x : Option ℕ) {now later : ℕ}
    → now ≤ later
    → is_due x now ≡ true
    → dropped_before_expiration d x now ≡ false
    → dropped_before_expiration d x later ≡ false
unfolding dropped_before_expiration is_due
dropped_settled none x h due t = t
dropped_settled (some e) none h due t = ground arith
dropped_settled (some e) (some y) h due t = ground arith

-- Whatever epochs Koios reports, as the current epoch grows the status stays as it is or moves to a
-- later stage: from active to dropped, expired or closed, from there to ratified, and then to enacted.
pub status_progresses :
    (p : KoiosProposal) (now later : ℕ)
    → now ≤ later
    → let s = derive_proposal_status p now in
      let t = derive_proposal_status p later in (s ≡ t) ⊎ (stage s < stage t)
unfolding derive_proposal_status stage
status_progresses p now later h = ground (
  arith,
  is_due_mono p.enacted_epoch {now = now} {later = later} h,
  is_due_mono p.ratified_epoch {now = now} {later = later} h,
  is_due_mono p.expired_epoch {now = now} {later = later} h,
  dropped_mono p.dropped_epoch p.expired_epoch {now = now} {later = later} h,
  dropped_settled p.dropped_epoch p.expired_epoch {now = now} {later = later} h,
)

-- An info action is never expired or dropped, and every other action never closed.
pub closed_only_info :
    (p : KoiosProposal) (now : ℕ)
    → let s = derive_proposal_status p now in
      ((p.proposal_type ≡ "InfoAction") × (s ≢ expired) × (s ≢ dropped))
      ⊎ ((p.proposal_type ≢ "InfoAction") × (s ≢ closed))
unfolding derive_proposal_status
closed_only_info p now = ground (arith, eq_iff p.proposal_type "InfoAction")

-- Not info, not ratified or enacted, dropped in an epoch that has come, and with an expiry (not epoch
-- 0): the status is dropped where the drop precedes the expiry, and expired where it does not.
pub drop_against_expiry :
    (p : KoiosProposal) (now d x : ℕ)
    → p.proposal_type ≢ "InfoAction"
    → p.enacted_epoch ≡ none
    → p.ratified_epoch ≡ none
    → p.dropped_epoch ≡ some d
    → p.expired_epoch ≡ some x
    → 0 < x
    → d ≤ now
    → ((d < x) × (derive_proposal_status p now ≡ dropped))
      ⊎ ((x ≤ d) × (derive_proposal_status p now ≡ expired))
unfolding derive_proposal_status is_due dropped_before_expiration
drop_against_expiry p now d x ne en ra dr ex pos_x due =
    rw (en, ra, dr, ex) (ground (arith, eq_iff p.proposal_type "InfoAction"))
