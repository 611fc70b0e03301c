-- ===== src/Survey/Validate.antt =====
-- Validation of surveys and responses: `validateQuestion`, `validateSurveyDetails`,
-- `validateLinkedSurvey`, `validateAnswer` and `validateSurveyResponse`. An error message is a
-- constructor of `Fault` with the values that its text names.
pub mod Linked
pub mod Response
use package.text.Mathlib.Text.{◌==◌ as str_eq}
use cgov_api.Prelude.{
  [], ℕ, Bool, true, false, Option, none, some, String, List, ◌∷◌, ◌++◌, length, ltb, ◌==◌, not,
  ◌&&◌, ◌||◌, if◌then◌else◌, is_some, filter,
}
use cgov_api.Prelude.Int.{ℤ, pos, negsuc, ltb_ℤ}
use cgov_api.Json.{JsValue}
use cgov_api.Survey.{
  ResponderRole, cc_role, drep_role, spo_role, stakeholder_role, WeightingMode, credential_based,
  stake_based, NumericConstraints, SurveyQuestion, RoleWeighting, SurveyDetails,
}
use cgov_api.Survey.Normalize.Details.{normalize_survey_details}

pub data Fault : Type 0 where
  missing_details details_version title_required questions_required question_unnamed : Fault
  weighting_required end_epoch_mismatch no_eligible_roles : Fault
  duplicate_question custom_schema_required two_options_required single_choice_max : String → Fault
  multi_select_max constraints_required constraints_invalid step_invalid : String → Fault
  numeric_with_options : String → Fault
  mode_not_allowed : ResponderRole → WeightingMode → Fault
  link_kind link_version link_missing_tx link_missing_details link_index : Fault
  missing_response response_version other_survey self_reference role_mismatch : Fault
  evidence_role_mismatch evidence_credential missing_linked_details late_response : Fault
  answers_required answer_unnamed : Fault
  evidence : String → Fault
  role_not_eligible : ResponderRole → Fault
  duplicate_answer unknown_answer : JsValue → Fault
  value_count one_option_required option_index selection_required selection_too_long :
      String → Fault
  numeric_required numeric_out_of_range numeric_off_step : String → Fault

abbrev pub survey_spec_version : String
survey_spec_version = "1.0.0"

abbrev governance_survey_link_kind : String
governance_survey_link_kind = "cardano-governance-survey-link"

abbrev pub single_choice : String
single_choice = "urn:cardano:poll-method:single-choice:v1"

abbrev pub multi_select : String
multi_select = "urn:cardano:poll-method:multi-select:v1"

abbrev pub numeric_range : String
numeric_range = "urn:cardano:poll-method:numeric-range:v1"

-- `if (c) errors.push(e)`.
abbrev pub fault_if : Bool → Fault → List Fault
fault_if c e = if c then e ∷ [] else []

abbrev pub same_role : ResponderRole → ResponderRole → Bool
same_role cc_role cc_role = true
same_role drep_role drep_role = true
same_role spo_role spo_role = true
same_role stakeholder_role stakeholder_role = true
same_role _ _ = false

-- `weighting[role]`.
unfoldable pub mode_of : ResponderRole → RoleWeighting → Option WeightingMode
mode_of role [] = none
mode_of role ((r, mode) ∷ rest) = if same_role role r then some mode else mode_of role rest

pub role_weighting_compatibility : ResponderRole → WeightingMode → Bool
role_weighting_compatibility cc_role credential_based = true
role_weighting_compatibility drep_role credential_based = true
role_weighting_compatibility drep_role stake_based = true
role_weighting_compatibility spo_role mode = true
role_weighting_compatibility stakeholder_role stake_based = true
role_weighting_compatibility _ _ = false

includes_role : List ResponderRole → ResponderRole → Bool
includes_role [] role = false
includes_role (r ∷ rs) role = if same_role r role then true else includes_role rs role

pub filter_linked_role_weighting : RoleWeighting → List ResponderRole → RoleWeighting
unfolding includes_role
filter_linked_role_weighting weighting eligible = filter (λ e. includes_role eligible e.0) weighting

-- `value !== undefined && value !== 1`.
abbrev not_one : Option ℤ → Bool
not_one (some (pos n)) = not (n == 1)
not_one (some (negsuc n)) = true
not_one none = false

options_length : Option (List String) → ℕ
options_length none = 0
options_length (some options) = length options

-- `maxSelections` is no integer from 1 to the number of options, if there are options.
multi_max_invalid : Option ℤ → Option (List String) → Bool
multi_max_invalid none options = true
multi_max_invalid (some m) none = ltb_ℤ m (pos 1)
multi_max_invalid (some m) (some options) = ltb_ℤ m (pos 1) || ltb_ℤ (pos (length options)) m

non_positive : Option ℤ → Bool
non_positive none = false
non_positive (some z) = ltb_ℤ z (pos 1)

constraint_faults : String → Option NumericConstraints → List Fault
unfolding non_positive
constraint_faults id none = constraints_required id ∷ []
constraint_faults id (some c) =
    fault_if (ltb_ℤ c.max_value c.min_value) (constraints_invalid id)
    ++ fault_if (non_positive c.step) (step_invalid id)

pub validate_question : SurveyQuestion → List Fault
unfolding options_length multi_max_invalid constraint_faults
validate_question q =
    let is_single = str_eq q.method_type single_choice in
    let is_multi = str_eq q.method_type multi_select in
    let is_numeric = str_eq q.method_type numeric_range in
    if not (is_single || is_multi || is_numeric)
    then fault_if (not (is_some q.method_schema_uri && is_some q.method_schema_hash))
        (custom_schema_required q.question_id)
    else fault_if ((is_single || is_multi) && ltb (options_length q.options) 2)
        (two_options_required q.question_id)
      ++ fault_if (is_single && not_one q.max_selections) (single_choice_max q.question_id)
      ++ fault_if (is_multi && multi_max_invalid q.max_selections q.options)
          (multi_select_max q.question_id)
      ++ (if is_numeric
          then constraint_faults q.question_id q.numeric_constraints
            ++ fault_if (is_some q.options || is_some q.max_selections)
                (numeric_with_options q.question_id)
          else [])

pub has_text : String → List String → Bool
has_text s [] = false
has_text s (t ∷ ts) = if str_eq t s then true else has_text s ts

-- The questions in order, with the ids seen before.
question_faults : List String → List SurveyQuestion → List Fault
unfolding validate_question has_text
question_faults seen [] = []
question_faults seen (q ∷ qs) =
    let unnamed = str_eq q.question_id "" || str_eq q.question "" in
    let rest = question_faults (if unnamed then seen else q.question_id ∷ seen) qs in
    if unnamed
    then question_unnamed ∷ rest
    else fault_if (has_text q.question_id seen) (duplicate_question q.question_id)
      ++ validate_question q
      ++ rest

weighting_faults : RoleWeighting → List Fault
unfolding role_weighting_compatibility
weighting_faults [] = []
weighting_faults ((role, mode) ∷ rest) =
    fault_if (not (role_weighting_compatibility role mode)) (mode_not_allowed role mode)
    ++ weighting_faults rest

abbrev pub is_nil : {A : Type 0} → List A → Bool
is_nil [] = true
is_nil (x ∷ xs) = false

abbrev differs : Option ℤ → ℤ → Bool
differs none z = false
differs (some e) z = ltb_ℤ e z || ltb_ℤ z e

-- No eligible role is left, where roles are asked for.
eligibility_faults : RoleWeighting → Option (List ResponderRole) → List Fault
unfolding filter_linked_role_weighting
eligibility_faults weighting none = []
eligibility_faults weighting (some []) = []
eligibility_faults weighting (some (r ∷ rs)) =
    fault_if (is_nil (filter_linked_role_weighting weighting (r ∷ rs))) no_eligible_roles

-- `validateSurveyDetails` past its normalization.
details_faults : SurveyDetails → Option (List ResponderRole) → Option ℤ → List Fault
unfolding question_faults weighting_faults eligibility_faults
details_faults s eligibility expiration =
    fault_if (not (str_eq s.spec_version survey_spec_version)) details_version
    ++ fault_if (str_eq s.title "" || str_eq s.description "") title_required
    ++ fault_if (is_nil s.questions) questions_required
    ++ question_faults [] s.questions
    ++ (if is_nil s.role_weighting
        then weighting_required ∷ []
        else weighting_faults s.role_weighting)
    ++ fault_if (differs expiration s.end_epoch) end_epoch_mismatch
    ++ eligibility_faults s.role_weighting eligibility

pub record Validation : Type 0 where
  pub valid : Bool
  pub errors : List Fault

normalized_validation : Option SurveyDetails → Option (List ResponderRole) → Option ℤ → Validation
unfolding details_faults
normalized_validation none eligibility expiration = record {
  valid = false;
  errors = missing_details ∷ [];
}
normalized_validation (some s) eligibility expiration =
    let errors = details_faults s eligibility expiration in
    record { valid = is_nil errors; errors = errors }

pub validate_survey_details : JsValue → Option (List ResponderRole) → Option ℤ → Validation
unfolding normalized_validation
validate_survey_details survey_details eligibility expiration =
    normalized_validation (normalize_survey_details survey_details) eligibility expiration
