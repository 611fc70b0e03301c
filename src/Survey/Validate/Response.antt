-- ===== src/Survey/Validate/Response.antt =====
-- `validateAnswer` and `validateSurveyResponse`. A stored text is cast to a `SurveyResponse` without a
-- test, so the response is an object of any shape. `none` stands for the error that JavaScript throws
-- where an answer is null.
pub mod Accepted
use package.text.Mathlib.Text.{◌==◌ as str_eq}
use cgov_api.Prelude.{
  [], ℕ, ◌+◌, ◌%◌, Bool, true, false, Option, none, some, String, List, ◌∷◌, ◌++◌, length, ltb,
  ◌==◌, not, ◌&&◌, ◌||◌, ◌or_else◌, if◌then◌else◌, is_some, ◌>>=◌,
}
use cgov_api.Prelude.Int.{ℤ, pos, ltb_ℤ, ◌-ℤ◌, pos_part, neg_part}
use cgov_api.Json.{
  JsValue, undefined, null, not_finite, boolean, big, number, fraction, str, array, object, JsItems,
  nil, item, JsFields, get_field,
}
use cgov_api.Survey.{
  role_name, ResponderRole, NumericConstraints, SurveyQuestion, RoleWeighting, SurveyDetails,
}
use cgov_api.Survey.Validate.{
  Fault, missing_response, response_version, other_survey, self_reference, role_mismatch,
  evidence_role_mismatch, evidence_credential, missing_linked_details, late_response,
  answers_required, answer_unnamed, evidence, role_not_eligible, duplicate_answer, unknown_answer,
  value_count, one_option_required, option_index, selection_required, selection_too_long,
  numeric_required, numeric_out_of_range, numeric_off_step, fault_if, survey_spec_version,
  single_choice, multi_select, numeric_range, mode_of,
}

-- `value === text`.
abbrev pub equals_text : JsValue → String → Bool
equals_text (str s) t = str_eq s t
equals_text v t = false

abbrev same_bool : Bool → Bool → Bool
same_bool true b = b
same_bool false b = not b

abbrev same_ℤ : ℤ → ℤ → Bool
same_ℤ a b = not (ltb_ℤ a b || ltb_ℤ b a)

-- As keys of a `Set`; objects and arrays of a parsed text are all different.
pub same_key : JsValue → JsValue → Bool
same_key undefined undefined = true
same_key null null = true
same_key (boolean a) (boolean b) = same_bool a b
same_key (big a) (big b) = same_ℤ a b
same_key (number a) (number b) = same_ℤ a b
same_key (fraction a) (fraction b) = str_eq a b
same_key (str a) (str b) = str_eq a b
same_key a b = false

pub has_key : JsValue → List JsValue → Bool
unfolding same_key
has_key v [] = false
has_key v (w ∷ ws) = same_key w v || has_key v ws

is_truthy : JsValue → Bool
is_truthy undefined = false
is_truthy null = false
is_truthy (boolean b) = b
is_truthy (str s) = not (str_eq s "")
is_truthy (number z) = not (same_ℤ z (pos 0))
is_truthy (big z) = not (same_ℤ z (pos 0))
is_truthy v = true

-- An integer from 0 to `n - 1`.
abbrev pub is_index : ℕ → JsValue → Bool
is_index n (number (pos i)) = ltb i n
is_index n v = false

pub all_indices : ℕ → JsItems → Bool
all_indices n nil = true
all_indices n (item v vs) = is_index n v && all_indices n vs

pub items_length : JsItems → ℕ
items_length nil = 0
items_length (item v vs) = items_length vs + 1

pub option_count : SurveyQuestion → ℕ
option_count q = length (q.options or_else [])

single_choice_faults : SurveyQuestion → JsValue → List Fault
unfolding all_indices items_length option_count
single_choice_faults q (array vs) =
    if not (items_length vs == 1)
    then one_option_required q.question_id ∷ []
    else fault_if (not (all_indices (option_count q) vs)) (option_index q.question_id)
single_choice_faults q v = one_option_required q.question_id ∷ []

multi_select_faults : SurveyQuestion → JsValue → List Fault
unfolding all_indices items_length option_count
multi_select_faults q (array vs) =
    let max = q.max_selections or_else pos 0 in
    fault_if (ltb_ℤ (pos 0) max && ltb_ℤ max (pos (items_length vs)))
      (selection_too_long q.question_id)
    ++ fault_if (not (all_indices (option_count q) vs)) (option_index q.question_id)
multi_select_faults q v = selection_required q.question_id ∷ []

abbrev abs_ℤ : ℤ → ℕ
abs_ℤ z = pos_part z + neg_part z

-- `step && a % step !== 0`; the remainder is 0 where the absolute value is divisible.
abbrev pub is_off_step : Option ℤ → ℤ → Bool
is_off_step none a = false
is_off_step (some s) a = not (abs_ℤ s == 0) && not (abs_ℤ a % abs_ℤ s == 0)

pub numeric_faults : SurveyQuestion → Option NumericConstraints → JsValue → List Fault
numeric_faults q (some c) (number z) =
    fault_if (ltb_ℤ z c.min_value || ltb_ℤ c.max_value z) (numeric_out_of_range q.question_id)
    ++ fault_if (is_off_step c.step (z -ℤ c.min_value)) (numeric_off_step q.question_id)
numeric_faults q constraints v = numeric_required q.question_id ∷ []

pub validate_answer : SurveyQuestion → JsFields → List Fault
unfolding single_choice_faults multi_select_faults numeric_faults
validate_answer q answer =
    (if str_eq q.method_type single_choice
      then single_choice_faults q (get_field "selection" answer)
      else [])
    ++ (if str_eq q.method_type multi_select
        then multi_select_faults q (get_field "selection" answer)
        else [])
    ++ (if str_eq q.method_type numeric_range
        then numeric_faults q q.numeric_constraints (get_field "numericValue" answer)
        else [])

abbrev is_array : JsValue → ℕ
is_array (array vs) = 1
is_array v = 0

abbrev is_number : JsValue → ℕ
is_number (number z) = 1
is_number (fraction t) = 1
is_number not_finite = 1
is_number v = 0

abbrev is_given : JsValue → ℕ
is_given undefined = 0
is_given v = 1

-- The properties of the answer that hold a value.
value_keys : JsFields → ℕ
value_keys answer =
    is_array (get_field "selection" answer)
    + is_number (get_field "numericValue" answer)
    + is_given (get_field "customValue" answer)

-- `questionMap.get(id)`: of questions with the same id the map holds the last.
pub find_question : JsValue → List SurveyQuestion → Option SurveyQuestion
find_question id [] = none
find_question id (q ∷ qs) =
    let later = find_question id qs in
    if is_some later then later else if equals_text id q.question_id then some q else none

answer_faults : Option SurveyQuestion → JsValue → JsFields → List Fault
unfolding validate_answer value_keys
answer_faults none id answer = unknown_answer id ∷ []
answer_faults (some q) id answer =
    if not (value_keys answer == 1)
    then value_count q.question_id ∷ []
    else validate_answer q answer

-- The properties of an answer, or `none` where reading one throws.
pub fields_of : JsValue → Option JsFields
fields_of undefined = none
fields_of null = none
fields_of (object fs) = some fs
fields_of v = some JsFields.end

pub checked_answers : List SurveyQuestion → List JsValue → JsItems → Option (List Fault)
unfolding fields_of has_key is_truthy answer_faults find_question
checked_answers questions seen nil = some []
checked_answers questions seen (item v vs) = do
  answer ← fields_of v
  let id = get_field "questionId" answer
  rest ← checked_answers questions (if is_truthy id then id ∷ seen else seen) vs
  some (
      if is_truthy id
      then fault_if (has_key id seen) (duplicate_answer id)
        ++ answer_faults (find_question id questions) id answer
        ++ rest
      else answer_unnamed ∷ rest)

pub record LinkedVoteEvidence : Type 0 where
  pub errors : List String
  pub responder_role : Option ResponderRole
  pub response_credential : Option String

evidence_errors : List String → List Fault
evidence_errors [] = []
evidence_errors (e ∷ es) = evidence e ∷ evidence_errors es

abbrev not_role : Option ResponderRole → JsValue → Bool
not_role none v = false
not_role (some r) v = not (equals_text v (role_name r))

abbrev is_missing : Option String → Bool
is_missing none = true
is_missing (some s) = str_eq s ""

evidence_faults : Option LinkedVoteEvidence → JsFields → List Fault
unfolding evidence_errors
evidence_faults none response = []
evidence_faults (some e) response =
    evidence_errors e.errors
    ++ fault_if (not_role e.responder_role (get_field "responderRole" response))
        evidence_role_mismatch
    ++ fault_if (is_missing e.response_credential) evidence_credential

abbrev pub is_late : Option ℤ → ℤ → Bool
is_late none end_epoch = false
is_late (some e) end_epoch = ltb_ℤ end_epoch e

-- The answers, which must be an array that is not empty.
pub answers_faults : List SurveyQuestion → JsValue → Option (List Fault)
unfolding checked_answers
answers_faults questions (array (item v vs)) = checked_answers questions [] (item v vs)
answers_faults questions v = some (answers_required ∷ [])

-- Whose response it is, and for which survey.
pub record Context : Type 0 where
  pub derived_role : ResponderRole
  pub linked_survey_tx_id : String
  pub response_epoch : Option ℤ
  pub allowed_role_weighting : Option RoleWeighting
  pub response_tx_hash : Option String
  pub linked_vote_evidence : Option LinkedVoteEvidence

abbrev is_self : Option String → JsValue → Bool
is_self none v = false
is_self (some hash) v = not (str_eq hash "") && equals_text v hash

header_faults : JsFields → Context → List Fault
unfolding evidence_faults
header_faults response c =
    fault_if (not (equals_text (get_field "specVersion" response) survey_spec_version))
      response_version
    ++ fault_if (not (equals_text (get_field "surveyTxId" response) c.linked_survey_tx_id))
        other_survey
    ++ fault_if (is_self c.response_tx_hash (get_field "surveyTxId" response)) self_reference
    ++ fault_if (not (equals_text (get_field "responderRole" response) (role_name c.derived_role)))
        role_mismatch
    ++ evidence_faults c.linked_vote_evidence response

add_answers : List Fault → Option (List Fault) → Option (List Fault)
add_answers before none = none
add_answers before (some answers) = some (before ++ answers)

-- `validateSurveyResponse`, of a response and a survey that are there.
pub response_faults : JsFields → SurveyDetails → Context → Option (List Fault)
unfolding header_faults answers_faults add_answers
response_faults response details c =
    let weighting = c.allowed_role_weighting or_else details.role_weighting in
    let eligible = is_some (mode_of c.derived_role weighting) in
    add_answers
      (header_faults response c
        ++ fault_if (not eligible) (role_not_eligible c.derived_role)
        ++ fault_if (is_late c.response_epoch details.end_epoch) late_response)
      (answers_faults details.questions (get_field "answers" response))

unfoldable pub validate_survey_response :
    Option JsFields → Option SurveyDetails → Context → Option (List Fault)
unfolding response_faults header_faults
validate_survey_response none details c = some (missing_response ∷ [])
validate_survey_response (some response) none c =
    some (header_faults response c ++ missing_linked_details ∷ [])
validate_survey_response (some response) (some details) c = response_faults response details c
