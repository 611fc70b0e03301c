-- ===== src/Survey/Normalize/Details.antt =====
-- `normalizeSurveyQuestion`, `normalizeSurveyDetails` and `extractSurveyDetails`.
use package.text.Mathlib.Text.{◌==◌ as str_eq}
use cgov_api.Prelude.{[], Option, none, some, String, List, ◌∷◌, if◌then◌else◌, ◌>>=◌}
use cgov_api.Prelude.Int.{ℤ}
use cgov_api.Json.{
  JsValue, undefined, number, array, object, JsItems, nil, item, JsFields, end, field, get_field,
}
use cgov_api.Survey.{
  WeightingMode, credential_based, stake_based, pledge_based, NumericConstraints, SurveyQuestion,
  RoleWeighting, SurveyDetails,
}
use cgov_api.Survey.Normalize.{normalize_metadata_text, required_text, read_role, extract_label17}

texts_of : JsItems → Option (List String)
texts_of nil = some []
texts_of (item v vs) = do text ← normalize_metadata_text v; rest ← texts_of vs; some (text ∷ rest)

-- As in the children, the outer `none` rejects the question.
read_options : JsValue → Option (Option (List String))
unfolding texts_of
read_options undefined = some none
read_options (array vs) = do texts ← texts_of vs; some (some texts)
read_options v = none

read_integer : JsValue → Option ℤ
read_integer (number z) = some z
read_integer v = none

read_step : JsValue → Option (Option ℤ)
read_step undefined = some none
read_step (number z) = some (some z)
read_step v = none

read_constraints : JsValue → Option (Option NumericConstraints)
unfolding read_integer read_step
read_constraints undefined = some none
read_constraints (object fs) = do
  low ← read_integer (get_field "minValue" fs)
  high ← read_integer (get_field "maxValue" fs)
  step ← read_step (get_field "step" fs)
  some (some (record { min_value = low; max_value = high; step = step }))
read_constraints v = none

pub normalize_survey_question : JsValue → Option SurveyQuestion
unfolding required_text read_options read_constraints read_integer
normalize_survey_question (object fs) = do
  id ← required_text "questionId" fs
  prompt ← required_text "question" fs
  method ← required_text "methodType" fs
  options ← read_options (get_field "options" fs)
  constraints ← read_constraints (get_field "numericConstraints" fs)
  some (record {
    question_id = id;
    question = prompt;
    method_type = method;
    options = options;
    max_selections = read_integer (get_field "maxSelections" fs);
    numeric_constraints = constraints;
    method_schema_uri = required_text "methodSchemaUri" fs;
    method_schema_hash = required_text "methodSchemaHash" fs;
  })
normalize_survey_question v = none

read_questions : JsItems → Option (List SurveyQuestion)
unfolding normalize_survey_question
read_questions nil = some []
read_questions (item v vs) = do
  question ← normalize_survey_question v
  rest ← read_questions vs
  some (question ∷ rest)

read_mode : Option String → Option WeightingMode
read_mode none = none
read_mode (some s) =
    if str_eq s "CredentialBased"
    then some credential_based
    else if str_eq s "StakeBased"
    then some stake_based
    else if str_eq s "PledgeBased"
    then some pledge_based
    else none

-- `Object.entries` of the role weighting.
read_weighting : JsFields → Option RoleWeighting
unfolding read_role read_mode
read_weighting end = some []
read_weighting (field key v fs) = do
  role ← read_role (some key)
  mode ← read_mode (normalize_metadata_text v)
  rest ← read_weighting fs
  some ((role, mode) ∷ rest)

questions_of : JsValue → Option (List SurveyQuestion)
unfolding read_questions
questions_of (array vs) = read_questions vs
questions_of v = none

weighting_of : JsValue → Option RoleWeighting
unfolding read_weighting
weighting_of (object fs) = read_weighting fs
weighting_of v = none

pub normalize_survey_details : JsValue → Option SurveyDetails
unfolding required_text questions_of weighting_of read_integer
normalize_survey_details (object fs) = do
  version ← required_text "specVersion" fs
  title ← required_text "title" fs
  description ← required_text "description" fs
  questions ← questions_of (get_field "questions" fs)
  weighting ← weighting_of (get_field "roleWeighting" fs)
  epoch ← read_integer (get_field "endEpoch" fs)
  some (record {
    spec_version = version;
    title = title;
    description = description;
    questions = questions;
    role_weighting = weighting;
    end_epoch = epoch;
  })
normalize_survey_details v = none

details_under : JsValue → Option SurveyDetails
unfolding normalize_survey_details
details_under (object fs) = normalize_survey_details (get_field "surveyDetails" fs)
details_under v = none

pub extract_survey_details : (JsValue → String) → JsValue → Option SurveyDetails
unfolding extract_label17 details_under
extract_survey_details text metadata = details_under (extract_label17 text metadata)
