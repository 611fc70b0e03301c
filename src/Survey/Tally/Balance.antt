-- ===== src/Survey/Tally/Balance.antt =====
-- The counts of the first loop of `buildSurveyTally`: votes seen, rejected and grouped.
use cgov_api.Survey.Validate.Response.Accepted.{validate-IsEligible}
use cgov_api.Prelude.{
  [], All, String, ◌+◌, false, length-append, ◌++◌, subst, ap, inr, inl, Bool-cases, sym, arith,
  Bool, is_some, ℕ, ◌+◌, ◌≡◌, refl, true, Option, none, some, List, ◌∷◌, length,
}
use cgov_api.Mapper.Numbers.{Double}
use cgov_api.Survey.{
  SurveyDetails, ResponderRole, cc_role, drep_role, spo_role, stakeholder_role, RoleWeighting,
}
use cgov_api.Survey.Validate.{same_role, mode_of}
use cgov_api.Survey.Tally.{
  vote_faults, is_nil, Fault, take_votes, take_vote, Runtime, invalid_once_more, see, no_counts,
  set_role, reject, seen_stats, accept, TallyCounts,
}
use cgov_api.Survey.Tally.Votes.{SurveyTallyVote}

same_role_refl : (r : ResponderRole) → same_role r r ≡ true
same_role_refl cc_role = refl
same_role_refl drep_role = refl
same_role_refl spo_role = refl
same_role_refl stakeholder_role = refl

same_role-eq : (a b : ResponderRole) → same_role a b ≡ true → a ≡ b
same_role-eq cc_role cc_role h = refl
same_role-eq drep_role drep_role h = refl
same_role-eq spo_role spo_role h = refl
same_role-eq stakeholder_role stakeholder_role h = refl
same_role-eq a b h = absurd (ground arith)

-- To show a property of each role, after a map was set at one.
each_of :
    (role : ResponderRole) (P : ResponderRole → Type 0)
    → P role
    → ((r : ResponderRole) → same_role role r ≡ false → P r)
    → (r : ResponderRole) → P r
each_of role P at_role at_other r = elim (Bool-cases (same_role role r)) [
  | inl same ↦ subst P (same_role-eq role r same) at_role
  | inr other ↦ at_other r other
]

-- The roles of the weighting differ, as the keys of an object do.
abbrev pub HasDistinctRoles : RoleWeighting → Type 0
HasDistinctRoles [] = Unit {0}
HasDistinctRoles ((role, mode) ∷ rest) = (mode_of role rest ≡ none) × HasDistinctRoles rest

module _ (d : Double) where
  abbrev pub grouped_sum : RoleWeighting → (ResponderRole → List (SurveyTallyVote d)) → ℕ
  grouped_sum [] grouped = 0
  grouped_sum ((role, mode) ∷ rest) grouped = length (grouped role) + grouped_sum rest grouped

  module _ (role : ResponderRole) (voted : List (SurveyTallyVote d))
      (grouped : ResponderRole → List (SurveyTallyVote d)) where
    sum_unset :
        (allowed : RoleWeighting)
        → mode_of role allowed ≡ none
        → grouped_sum allowed (set_role role voted grouped) ≡ grouped_sum allowed grouped
    unfolding mode_of
    sum_unset [] h = refl
    sum_unset ((r, mode) ∷ rest) h = elim (Bool-cases (same_role role r)) [
      | inl same ↦ absurd (ground (arith, same, h))
      | inr other ↦
          rw other (ap (λ n. length (grouped r) + n) (sum_unset rest (ground (arith, other, h))))
    ]

    sum_set :
        (allowed : RoleWeighting)
        → HasDistinctRoles allowed
        → is_some (mode_of role allowed) ≡ true
        → length voted ≡ length (grouped role) + 1
        → grouped_sum allowed (set_role role voted grouped) ≡ grouped_sum allowed grouped + 1
    unfolding mode_of
    sum_set [] distinct h more = absurd (ground arith)
    sum_set ((r, mode) ∷ rest) distinct h more = elim (Bool-cases (same_role role r)) [
      | inl same ↦
          let e = same_role-eq role r same in
          rw same (
            omega (
              arith,
              more,
              ap (λ r. length (grouped r)) e,
              sum_unset rest (subst (λ r. mode_of r rest ≡ none) (sym e) distinct.0),
            ))
      | inr other ↦
          rw other (omega (arith, sum_set rest distinct.1 (ground (arith, other, h)) more))
    ]

  -- Of a role that takes part, the votes seen are the valid ones and the invalid ones.
  abbrev pub IsRoleBalanced : Bool → Option (ℕ × ℕ) → ℕ → Type 0
  IsRoleBalanced takes_part none voted = voted ≡ 0
  IsRoleBalanced takes_part (some (seen, invalid)) voted =
      (takes_part ≡ true) × (seen ≡ invalid + voted)

  pub record IsBalanced (allowed : RoleWeighting) (c : TallyCounts d) : Type 0 where
    pub all_votes : c.total_seen ≡ c.total_invalid + grouped_sum allowed c.grouped_by_role
    pub each_role :
        (r : ResponderRole)
        → IsRoleBalanced
            (is_some (mode_of r allowed))
            (c.role_stats r)
            (length (c.grouped_by_role r))

  no_counts-sum : (allowed : RoleWeighting) → grouped_sum allowed (λ role. []) ≡ 0
  no_counts-sum [] = refl
  no_counts-sum ((role, mode) ∷ rest) = omega (arith, no_counts-sum rest)

  pub no_counts-IsBalanced : (allowed : RoleWeighting) → IsBalanced allowed (no_counts d)
  no_counts-IsBalanced allowed = record {
    all_votes = omega (arith, no_counts-sum allowed);
    each_role = λ r. refl;
  }

  -- The statistics of one role, after a vote of it.
  accept_stats :
      (takes_part : Bool) (stats : Option (ℕ × ℕ)) (voted voted' : ℕ)
      → takes_part ≡ true
      → IsRoleBalanced takes_part stats voted
      → voted' ≡ voted + 1
      → IsRoleBalanced takes_part (seen_stats d takes_part stats) voted'
  unfolding seen_stats
  accept_stats false stats voted voted' part h more = absurd (ground arith)
  accept_stats true none voted voted' part h more = (refl, omega (arith, h, more))
  accept_stats true (some (seen, invalid)) voted voted' part h more =
      (refl, omega (arith, h.1, more))

  reject_stats :
      (takes_part : Bool) (stats : Option (ℕ × ℕ)) (voted : ℕ)
      → IsRoleBalanced takes_part stats voted
      → IsRoleBalanced takes_part (invalid_once_more d (seen_stats d takes_part stats)) voted
  unfolding seen_stats invalid_once_more
  reject_stats true none voted h = (refl, omega (arith, h))
  reject_stats true (some (seen, invalid)) voted h = (refl, omega (arith, h.1))
  reject_stats false none voted h = h
  reject_stats false (some (seen, invalid)) voted h = absurd (ground (arith, h.0))

  module _ (allowed : RoleWeighting) (distinct : HasDistinctRoles allowed) (c : TallyCounts d)
      (balanced : IsBalanced allowed c) where
    accept-IsBalanced :
        (role : ResponderRole) (vote : SurveyTallyVote d)
        → is_some (mode_of role allowed) ≡ true
        → IsBalanced allowed (accept d role vote (see d allowed role c))
    unfolding accept see
    accept-IsBalanced role vote part =
        let voted = c.grouped_by_role role ++ vote ∷ [] in
        let more = length-append (c.grouped_by_role role) (vote ∷ []) in
        record {
          all_votes = omega (
            arith,
            balanced.all_votes,
            sum_set role voted c.grouped_by_role allowed distinct part more,
          );
          each_role =
              each_of role _
                (rw (same_role_refl role)
                  (accept_stats _ (c.role_stats role) _ _ part (balanced.each_role role) more))
                (λ r other. rw other (balanced.each_role r));
        }

    reject-IsBalanced :
        (role : ResponderRole) → IsBalanced allowed (reject d role (see d allowed role c))
    unfolding reject see
    reject-IsBalanced role = record {
      all_votes = omega (arith, balanced.all_votes);
      each_role =
          each_of role _
            (rw (same_role_refl role)
              (reject_stats _ (c.role_stats role) _ (balanced.each_role role)))
            (λ r other. rw other (balanced.each_role r));
    }

  module _ (rt : Runtime d) (survey_tx_id : String) (details : SurveyDetails)
      (allowed : RoleWeighting) (enforce : Bool) where
    -- The validation of the response does not throw.
    abbrev pub HasVerdict : SurveyTallyVote d → Type 0
    HasVerdict vote =
        (faults : List Fault) × (vote_faults d rt survey_tx_id details allowed enforce vote
          ≡ some faults)

    take_vote-IsBalanced :
        HasDistinctRoles allowed
        → (c : TallyCounts d) (vote : SurveyTallyVote d) (faults : List Fault)
        → IsBalanced allowed c
        → vote_faults d rt survey_tx_id details allowed enforce vote ≡ some faults
        → IsBalanced allowed (take_vote d allowed vote faults c)
    unfolding take_vote vote_faults
    take_vote-IsBalanced distinct c vote faults h verdict = elim (Bool-cases (is_nil faults)) [
      | inl clean ↦ rw clean (
          accept-IsBalanced allowed distinct c h _ vote
            (validate-IsEligible _ details _ faults verdict clean).0)
      | inr faulty ↦ rw faulty (reject-IsBalanced allowed distinct c h _)
    ]

    take_vote-seen :
        (c : TallyCounts d) (vote : SurveyTallyVote d) (faults : List Fault)
        → (take_vote d allowed vote faults c).total_seen ≡ c.total_seen + 1
    unfolding take_vote accept reject see
    take_vote-seen c vote faults = elim (Bool-cases (is_nil faults)) [
      | inl clean ↦ rw clean refl
      | inr faulty ↦ rw faulty refl
    ]

    pub take_votes-IsBalanced :
        HasDistinctRoles allowed
        → (votes : List (SurveyTallyVote d)) (c : TallyCounts d) → IsBalanced allowed c
        → All HasVerdict votes
        → (c' : TallyCounts d) × (take_votes d rt survey_tx_id details allowed enforce votes c
            ≡ some c')
          × IsBalanced allowed c'
          × (c'.total_seen ≡ c.total_seen + length votes)
    unfolding take_votes
    take_votes-IsBalanced distinct [] c h verdicts = (c, refl, h, omega arith)
    take_votes-IsBalanced distinct (vote ∷ votes) c h ((faults, verdict), verdicts) =
        let next = take_vote d allowed vote faults c in
        let (c', e, h', seen) =
          take_votes-IsBalanced distinct votes next
            (take_vote-IsBalanced distinct c vote faults h verdict) verdicts in
        (c', rw verdict e, h', omega (arith, seen, take_vote-seen c vote faults))
