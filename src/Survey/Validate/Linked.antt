-- ===== src/Survey/Validate/Linked.antt =====
-- `parseGovernanceSurveyLink`, `getActionEligibility` and `validateLinkedSurvey`: the link from the
-- metadata of a governance action to a survey. `JSON.parse` and `Number` are parameters.
use package.text.Mathlib.Text.{◌==◌ as str_eq}
use cgov_api.Prelude.{
  [], ℕ, Bool, false, Option, none, some, String, List, ◌∷◌, ◌++◌, not, ◌&&◌, if◌then◌else◌,
  is_some,
}
use cgov_api.Prelude.Int.{ℤ, pos}
use cgov_api.Governance.{GovernanceType}
use cgov_api.Mapper.Numbers.{Double}
use cgov_api.Mapper.Decision.{get_voting_threshold}
use cgov_api.Json.{JsValue, number, str, object, get_field}
use cgov_api.Survey.{ResponderRole, cc_role, drep_role, spo_role, RoleWeighting, SurveyDetails}
use cgov_api.Survey.Normalize.Details.{normalize_survey_details}
use cgov_api.Survey.Validate.{
  Fault, no_eligible_roles, link_kind, link_version, link_missing_tx, link_missing_details,
  link_index, fault_if, survey_spec_version, governance_survey_link_kind, is_nil,
  filter_linked_role_weighting, Validation, validate_survey_details,
}

pub record SurveyLink : Type 0 where
  pub spec_version : Option String
  pub kind : Option String
  pub survey_tx_id : Option String

text_value : JsValue → Option String
text_value (str s) = some s
text_value v = none

abbrev no_link : SurveyLink
no_link = record { spec_version = none; kind = none; survey_tx_id = none }

-- Of a value that is no object the properties are undefined, and of `null` they throw.
link_of : Option JsValue → SurveyLink
unfolding text_value
link_of (some (object fs)) = record {
  spec_version = text_value (get_field "specVersion" fs);
  kind = text_value (get_field "kind" fs);
  survey_tx_id = text_value (get_field "surveyTxId" fs);
}
link_of v = no_link

pub parse_governance_survey_link : (String → Option JsValue) → Option String → SurveyLink
unfolding link_of
parse_governance_survey_link parse none = no_link
parse_governance_survey_link parse (some s) = if str_eq s "" then no_link else link_of (parse s)

pub get_action_eligibility : Double → Option GovernanceType → List ResponderRole
get_action_eligibility d governance_type =
    let t = get_voting_threshold d governance_type in
    drep_role ∷ (if is_some t.spo_threshold then spo_role ∷ [] else [])
    ++ (if is_some t.cc_threshold then cc_role ∷ [] else [])

abbrev matches_text : Option String → String → Bool
matches_text none t = false
matches_text (some s) t = str_eq s t

abbrev is_truthy : Option String → Bool
is_truthy none = false
is_truthy (some s) = not (str_eq s "")

-- `Number(certIndex)`, where it is an integer that is not negative.
index_of : JsValue → Option ℕ
index_of (number (pos n)) = some n
index_of v = none

pub record ProposalSurvey : Type 0 where
  pub linked : Bool
  pub survey_tx_id : Option String
  pub link_validation : Validation
  pub action_eligibility : List ResponderRole
  pub linked_role_weighting : Option RoleWeighting
  pub linked_action_id : Option (String × ℕ)
  pub survey_details : Option SurveyDetails
  pub details_validation : Validation

pub record LinkedSurvey : Type 0 where
  pub link : SurveyLink
  pub details_value : JsValue
  pub governance_type : Option GovernanceType
  pub proposal_tx_hash : String
  pub cert_index : String
  pub expiration_epoch : Option ℤ

weighting_left : Option SurveyDetails → List ResponderRole → Option RoleWeighting
weighting_left none eligible = none
weighting_left (some s) eligible = some (filter_linked_role_weighting s.role_weighting eligible)

nothing_left : Option RoleWeighting → Bool
nothing_left none = false
nothing_left (some w) = is_nil w

action_id : String → Option ℕ → Option (String × ℕ)
action_id hash none = none
action_id hash (some ix) = some (hash, ix)

-- The errors of the link, in the order of the code.
pub link_faults : SurveyLink → Option SurveyDetails → Option ℕ → Option RoleWeighting → List Fault
unfolding nothing_left
link_faults link details index weighting =
    fault_if (not (matches_text link.kind governance_survey_link_kind)) link_kind
    ++ fault_if (not (matches_text link.spec_version survey_spec_version)) link_version
    ++ fault_if (not (is_truthy link.survey_tx_id)) link_missing_tx
    ++ fault_if (is_truthy link.survey_tx_id && not (is_some details)) link_missing_details
    ++ fault_if (not (is_some index)) link_index
    ++ fault_if (nothing_left weighting) no_eligible_roles

module _ (d : Double) (js_number : String → JsValue) where
  pub validate_linked_survey : LinkedSurvey → ProposalSurvey
  unfolding link_faults weighting_left index_of action_id get_action_eligibility
  validate_linked_survey p =
      let details = normalize_survey_details p.details_value in
      let eligibility = get_action_eligibility d p.governance_type in
      let index = index_of (js_number p.cert_index) in
      let weighting = weighting_left details eligibility in
      let errors = link_faults p.link details index weighting in
      record {
        linked = is_some p.link.survey_tx_id;
        survey_tx_id = p.link.survey_tx_id;
        link_validation = record { valid = is_nil errors; errors = errors };
        action_eligibility = eligibility;
        linked_role_weighting = weighting;
        linked_action_id = action_id p.proposal_tx_hash index;
        survey_details = details;
        details_validation =
            validate_survey_details p.details_value (some eligibility) p.expiration_epoch;
      }
