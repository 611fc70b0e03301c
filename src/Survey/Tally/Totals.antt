-- ===== src/Survey/Tally/Totals.antt =====
-- The totals of `buildSurveyTally`, overall and by role.
use cgov_api.Prelude.{
  [], ℕ, ◌+◌, ◌≤◌, ◌≡◌, refl, Bool, Option, none, some, String, List, ◌∷◌, length, All, arith,
}
use cgov_api.Mapper.Numbers.{Double}
use cgov_api.Survey.{RoleWeighting, SurveyDetails}
use cgov_api.Survey.Tally.{
  RoleTotals, TallyCounts, SurveyTally, TallyOptions, no_counts, role_totals, role_results, sum_of,
  overall_totals, tally_of, build_survey_tally,
}
use cgov_api.Survey.Tally.Votes.{Runtime, SurveyTallyVote, dedupe_votes}
use cgov_api.Survey.Tally.Votes.Latest.{dedupe_votes-length}
use cgov_api.Survey.Tally.Methods.{build_method_results}
use cgov_api.Survey.Tally.Balance.{
  HasDistinctRoles, grouped_sum, IsRoleBalanced, IsBalanced, no_counts-IsBalanced, HasVerdict,
  take_votes-IsBalanced,
}

-- The totals of each role add up.
abbrev pub IsSum : RoleTotals → Type 0
IsSum t = (t.total_seen ≡ t.valid + t.invalid) × (t.unique_responders ≡ t.valid)

module _ (d : Double) where
  role_totals-IsSum :
      (takes_part : Bool) (stats : Option (ℕ × ℕ)) (voted kept : ℕ)
      → IsRoleBalanced d takes_part stats voted
      → kept ≤ voted
      → IsSum (role_totals stats voted kept)
  unfolding role_totals
  role_totals-IsSum part none voted kept h le = (omega (arith, h, le), refl)
  role_totals-IsSum part (some (seen, invalid)) voted kept h le = (omega (arith, h.1, le), refl)

  module _ (rt : Runtime d) (survey_tx_id : String) (details : SurveyDetails)
      (allowed : RoleWeighting) (enforce : Bool) where
    -- Of the second loop: each role adds up, and together the roles have the votes that were grouped.
    role_results-IsSum :
        (c : TallyCounts d)
        → IsBalanced d allowed c
        → (weighting : RoleWeighting) (errors : List String)
        → let results =
            (role_results d rt survey_tx_id details allowed enforce c weighting errors).0 in
          All (λ r. IsSum r.totals) results
          × (sum_of d (λ t. t.valid) results + sum_of d (λ t. t.deduped) results
              ≡ grouped_sum d weighting c.grouped_by_role)
          × (sum_of d (λ t. t.unique_responders) results ≡ sum_of d (λ t. t.valid) results)
    unfolding role_results
    role_results-IsSum c h [] errors = (tt, refl, refl)
    role_results-IsSum c h ((role, mode) ∷ rest) errors =
        let voted = c.grouped_by_role role in
        let kept = dedupe_votes d rt voted in
        let (methods, errors') =
          build_method_results d rt role mode details.questions kept errors in
        let (each, counted, unique) = role_results-IsSum c h rest errors' in
        let fewer = dedupe_votes-length d rt voted in
        let here =
          role_totals-IsSum _ (c.role_stats role) (length voted) (length kept) (h.each_role role)
            fewer in
        ((here, each), omega (arith, counted, fewer), omega (arith, unique))

  -- If the roles of the weighting differ and no validation throws, `buildSurveyTally` returns a tally
  -- that loses no vote: it has seen every vote, and overall and in each role the votes seen are the
  -- valid and the invalid ones, with as many responders as valid votes.
  pub tally_conserves :
      (rt : Runtime d) (survey_tx_id : String) (details : SurveyDetails) (allowed : RoleWeighting)
      (votes : List (SurveyTallyVote d)) (options : TallyOptions d)
      → HasDistinctRoles allowed
      → All
          (HasVerdict d rt survey_tx_id details allowed options.enforce_linked_vote_evidence)
          votes
      → (t : SurveyTally d) × (build_survey_tally d rt survey_tx_id details allowed votes options
          ≡ some t)
        × (t.totals.total_seen ≡ length votes)
        × IsSum t.totals
        × All (λ r. IsSum r.totals) t.role_results
  unfolding build_survey_tally tally_of overall_totals
  tally_conserves rt survey_tx_id details allowed votes options distinct verdicts =
      let enforce = options.enforce_linked_vote_evidence in
      let (c, e, h, seen) =
        take_votes-IsBalanced d rt survey_tx_id details allowed enforce distinct votes (no_counts d)
          (no_counts-IsBalanced d allowed) verdicts in
      let (each, counted, unique) =
        role_results-IsSum rt survey_tx_id details allowed enforce c h allowed [] in
      (
        tally_of d rt survey_tx_id details allowed enforce options c,
        rw e refl,
        omega (arith, seen),
        (omega (arith, h.all_votes, counted), unique),
        each,
      )
