-- ===== src/Status/Tests.antt =====
-- The status policy on small inputs.
use cgov_api.Prelude.{◌<◌, ◌≡◌, ◌⊎◌, none, some, arith}
use cgov_api.Status.{KoiosProposal, derive_proposal_status}
use cgov_api.Status.Progress.{stage, status_progresses}

-- Dropped in epoch 600, with its expiry in 605.
abbrev dropped_early : KoiosProposal
dropped_early = record {
  proposal_type = "ParameterChange";
  ratified_epoch = none;
  enacted_epoch = none;
  dropped_epoch = some 600;
  expired_epoch = some 605;
}

status_progresses_example :
    let s = derive_proposal_status dropped_early 599 in
    let t = derive_proposal_status dropped_early 606 in (s ≡ t) ⊎ (stage s < stage t)
status_progresses_example = status_progresses dropped_early 599 606 (omega arith)
