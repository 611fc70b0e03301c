-- ===== src/Survey/Tally.antt =====
-- `buildSurveyTally`: the votes of a survey counted by role. What JavaScript gives is a parameter, in
-- `Runtime`. The children weigh the answers, keep the latest vote of a voter, and hold the theorems.
pub mod Votes
pub mod Methods
pub mod Balance
pub mod Totals
mod Tests
use cgov_api.Prelude.{
  [], true, false, ℕ, ◌+◌, ◌-◌, Bool, Option, none, some, String, List, ◌∷◌, ◌++◌, length,
  ◌or_else◌, if◌then◌else◌, is_some, ◌>>=◌,
}
use cgov_api.Prelude.Int.{ℤ}
use cgov_api.Governance.{VoterType, drep, spo, cc}
use cgov_api.Mapper.Numbers.{Double}
use cgov_api.Json.{JsFields, object}
use cgov_api.Survey.{
  ResponderRole, drep_role, spo_role, cc_role, WeightingMode, RoleWeighting, SurveyDetails,
  SurveyResponse,
}
use cgov_api.Survey.Normalize.{extract_survey_response, safe_parse_json}
use cgov_api.Survey.Normalize.Print.{response_fields}
use cgov_api.Survey.Validate.{Fault, same_role, mode_of, is_nil}
use cgov_api.Survey.Validate.Response.{validate_survey_response}
use cgov_api.Survey.Tally.Votes.{Runtime, SurveyTallyVote, dedupe_votes}
use cgov_api.Survey.Tally.Methods.{MethodResult, build_method_results, add_error}

pub map_voter_type_to_responder_role : VoterType → ResponderRole
map_voter_type_to_responder_role drep = drep_role
map_voter_type_to_responder_role spo = spo_role
map_voter_type_to_responder_role cc = cc_role

-- A map by role; `set` of a key.
abbrev pub set_role {ℓ} : {A : Type ℓ} → ResponderRole → A → (ResponderRole → A) → ResponderRole → A
set_role role a f r = if same_role role r then a else f r

pub record RoleTotals : Type 0 where
  pub total_seen : ℕ
  pub valid : ℕ
  pub invalid : ℕ
  pub deduped : ℕ
  pub unique_responders : ℕ

pub data Phase : Type 0 where
  provisional finalization_pending finalized : Phase

pub role_totals : Option (ℕ × ℕ) → ℕ → ℕ → RoleTotals
role_totals stats voted kept =
    let (seen, invalid) = stats or_else (voted, 0) in
    record {
      total_seen = seen;
      valid = kept;
      invalid = invalid + (voted - kept);
      deduped = voted - kept;
      unique_responders = kept;
    }

-- `Array.from(new Set(texts))`, after the texts seen so far.
distinct : List String → List String → List String
distinct [] seen = seen
distinct (t ∷ ts) seen = distinct ts (add_error t seen)

module _ (d : Double) where
  -- The counts and groups of the first loop; the statistics of a role are its votes seen and invalid.
  pub record TallyCounts : Type 0 where
    pub total_seen : ℕ
    pub total_invalid : ℕ
    pub grouped_by_role : ResponderRole → List (SurveyTallyVote d)
    pub role_stats : ResponderRole → Option (ℕ × ℕ)

  pub record RoleResult : Type 0 where
    pub responder_role : ResponderRole
    pub weighting_mode : WeightingMode
    pub totals : RoleTotals
    pub method_results : List (MethodResult d)

  pub record SurveyTally : Type 0 where
    pub survey_tx_id : String
    pub phase : Phase
    pub as_of_epoch : Option ℤ
    pub finalization_epoch : ℤ
    pub totals : RoleTotals
    pub role_results : List RoleResult
    pub errors : List String
    pub warnings : List String

  pub record TallyOptions : Type 0 where
    pub phase : Option Phase
    pub as_of_epoch : Option ℤ
    pub finalization_epoch : Option ℤ
    pub warnings : List String
    pub enforce_linked_vote_evidence : Bool

  abbrev pub no_counts : TallyCounts
  no_counts = record {
    total_seen = 0;
    total_invalid = 0;
    grouped_by_role = λ role. [];
    role_stats = λ role. none;
  }

  -- The statistics of a role that takes part, or not, after another vote of it.
  seen_stats : Bool → Option (ℕ × ℕ) → Option (ℕ × ℕ)
  seen_stats false stats = stats
  seen_stats true none = some (1, 0)
  seen_stats true (some (seen, invalid)) = some (seen + 1, invalid)

  invalid_once_more : Option (ℕ × ℕ) → Option (ℕ × ℕ)
  invalid_once_more none = none
  invalid_once_more (some (seen, invalid)) = some (seen, invalid + 1)

  -- A vote of the role is seen, and counted where the role takes part.
  pub see : RoleWeighting → ResponderRole → TallyCounts → TallyCounts
  unfolding seen_stats
  see allowed role c = record c {
    total_seen = c.total_seen + 1;
    role_stats =
        set_role role (seen_stats (is_some (mode_of role allowed)) (c.role_stats role))
          c.role_stats;
  }

  pub reject : ResponderRole → TallyCounts → TallyCounts
  unfolding invalid_once_more
  reject role c = record c {
    total_invalid = c.total_invalid + 1;
    role_stats = set_role role (invalid_once_more (c.role_stats role)) c.role_stats;
  }

  pub accept : ResponderRole → SurveyTallyVote d → TallyCounts → TallyCounts
  accept role vote c = record c {
    grouped_by_role = set_role role (c.grouped_by_role role ++ vote ∷ []) c.grouped_by_role;
  }

  -- One turn of the loop, with the errors of the response.
  pub take_vote : RoleWeighting → SurveyTallyVote d → List Fault → TallyCounts → TallyCounts
  unfolding see reject accept map_voter_type_to_responder_role
  take_vote allowed vote faults c =
      let role = map_voter_type_to_responder_role vote.voter_type in
      let seen = see allowed role c in
      if is_nil faults then accept role vote seen else reject role seen

  abbrev pub sum_of : (RoleTotals → ℕ) → List RoleResult → ℕ
  sum_of f [] = 0
  sum_of f (r ∷ rs) = f r.totals + sum_of f rs

  pub overall_totals : TallyCounts → List RoleResult → RoleTotals
  overall_totals c results =
      let deduped = sum_of (λ t. t.deduped) results in
      record {
        total_seen = c.total_seen;
        valid = sum_of (λ t. t.valid) results;
        invalid = c.total_invalid + deduped;
        deduped = deduped;
        unique_responders = sum_of (λ t. t.unique_responders) results;
      }

  module _ (rt : Runtime d) (survey_tx_id : String) (details : SurveyDetails)
      (allowed : RoleWeighting) (enforce : Bool) where
    -- The response of the text, read from label 17 or else the object itself.
    read_fields : Option JsFields → Option SurveyResponse → Option JsFields
    read_fields none extracted = none
    read_fields (some raw) none = some raw
    read_fields (some raw) (some response) = some (response_fields response)

    response_object : Option JsFields → Option JsFields
    unfolding read_fields
    response_object none = none
    response_object (some raw) =
        read_fields (some raw) (extract_survey_response rt.text (object raw))

    -- `none` where the validation throws.
    pub vote_faults : SurveyTallyVote d → Option (List Fault)
    unfolding response_object map_voter_type_to_responder_role
    vote_faults vote =
        validate_survey_response
          (response_object (safe_parse_json rt.text rt.parse vote.survey_response)) (some details)
          (record {
            derived_role = map_voter_type_to_responder_role vote.voter_type;
            linked_survey_tx_id = survey_tx_id;
            response_epoch = vote.response_epoch;
            allowed_role_weighting = some allowed;
            response_tx_hash = some vote.tx_hash;
            linked_vote_evidence = if enforce then vote.linked_vote_evidence else none;
          })

    pub take_votes : List (SurveyTallyVote d) → TallyCounts → Option TallyCounts
    unfolding vote_faults take_vote
    take_votes [] c = some c
    take_votes (vote ∷ votes) c = do
      faults ← vote_faults vote
      take_votes votes (take_vote allowed vote faults c)

    -- The second loop, over the roles that take part, with the set of errors.
    pub role_results : TallyCounts → RoleWeighting → List String → List RoleResult × List String
    unfolding role_totals
    role_results c [] errors = ([], errors)
    role_results c ((role, mode) ∷ rest) errors =
        let voted = c.grouped_by_role role in
        let kept = dedupe_votes d rt voted in
        let (methods, errors') =
          build_method_results d rt role mode details.questions kept errors in
        let (results, errors'') = role_results c rest errors' in
        (
          record {
            responder_role = role;
            weighting_mode = mode;
            totals = role_totals (c.role_stats role) (length voted) (length kept);
            method_results = methods;
          }
              ∷ results,
          errors'',
        )

    pub tally_of : TallyOptions → TallyCounts → SurveyTally
    unfolding role_results overall_totals distinct
    tally_of options c =
        let (results, errors) = role_results c allowed [] in
        record {
          survey_tx_id = survey_tx_id;
          phase = options.phase or_else provisional;
          as_of_epoch = options.as_of_epoch;
          finalization_epoch = options.finalization_epoch or_else details.end_epoch;
          totals = overall_totals c results;
          role_results = results;
          errors = errors;
          warnings = distinct options.warnings [];
        }

  pub build_survey_tally :
      Runtime d
      → String
      → SurveyDetails
      → RoleWeighting
      → List (SurveyTallyVote d)
      → TallyOptions
      → Option SurveyTally
  unfolding take_votes tally_of
  build_survey_tally rt survey_tx_id details allowed votes options = do
    c ←
        take_votes rt survey_tx_id details allowed options.enforce_linked_vote_evidence votes
          no_counts
    some (tally_of rt survey_tx_id details allowed options.enforce_linked_vote_evidence options c)
