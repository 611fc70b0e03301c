-- ===== src/Survey/Normalize.antt =====
-- Survey responses in transaction metadata: `normalizeMetadataText`, `normalizeSurveyAnswer`,
-- `normalizeSurveyResponse`, `extractLabel17`, `extractSurveyResponse` and `safeParseSurveyResponse`.
-- What JavaScript gives is a parameter: `JSON.parse`, which is `none` where it throws, and `String`.
pub mod Details
pub mod Print
pub mod Readable
pub mod Reread
pub mod RoundTrip
pub mod Tests
use package.text.Mathlib.Text.{◌==◌ as str_eq}
use cgov_api.Prelude.{[], Option, none, some, String, List, ◌∷◌, if◌then◌else◌, ◌>>=◌}
use cgov_api.Prelude.Int.{ℤ}
use cgov_api.Json.{
  JsValue, undefined, null, number, fraction, str, array, object, JsItems, nil, item, JsFields,
  get_field, or_value,
}
use cgov_api.Survey.{
  ResponderRole, cc_role, drep_role, spo_role, stakeholder_role, Finite, whole, broken,
  SurveyAnswer, SurveyResponse,
}

abbrev pub append_text : String → String → String
append_text String.[] t = t
append_text (String.◌∷◌ c s) t = String.◌∷◌ c (append_text s t)

-- `value.join("")` where every item is a string.
join_texts : JsItems → Option String
join_texts nil = some ""
join_texts (item (str s) vs) = do rest ← join_texts vs; some (append_text s rest)
join_texts (item v vs) = none

pub normalize_metadata_text : JsValue → Option String
unfolding join_texts
normalize_metadata_text (str s) = some s
normalize_metadata_text (array vs) = join_texts vs
normalize_metadata_text v = none

-- The text, where it is truthy.
abbrev non_empty_text : Option String → Option String
non_empty_text none = none
non_empty_text (some s) = if str_eq s "" then none else some s

pub required_text : String → JsFields → Option String
unfolding normalize_metadata_text
required_text key fs = non_empty_text (normalize_metadata_text (get_field key fs))

-- An array of integers.
integers : JsItems → Option (List ℤ)
integers nil = some []
integers (item (number z) vs) = do zs ← integers vs; some (z ∷ zs)
integers (item v vs) = none

-- The outer `none` rejects the answer.
pub read_selection : JsValue → Option (Option (List ℤ))
unfolding integers
read_selection undefined = some none
read_selection (array vs) = do zs ← integers vs; some (some zs)
read_selection v = none

pub read_numeric : JsValue → Option (Option Finite)
read_numeric undefined = some none
read_numeric (number z) = some (some (whole z))
read_numeric (fraction t) = some (some (broken t))
read_numeric v = none

pub read_custom : JsValue → Option JsValue
read_custom undefined = none
read_custom v = some v

-- The answer, where no property was rejected.
pub build_answer :
    Option String
    → Option (Option (List ℤ))
    → Option (Option Finite)
    → Option JsValue
    → Option SurveyAnswer
build_answer id? selection? numeric? custom = do
  id ← id?
  selection ← selection?
  numeric ← numeric?
  some (record {
    question_id = id;
    selection = selection;
    numeric_value = numeric;
    custom_value = custom;
  })

pub normalize_survey_answer : JsValue → Option SurveyAnswer
unfolding required_text read_selection read_numeric read_custom build_answer
normalize_survey_answer (object fs) =
    build_answer (required_text "questionId" fs) (read_selection (get_field "selection" fs))
      (read_numeric (get_field "numericValue" fs)) (read_custom (get_field "customValue" fs))
normalize_survey_answer v = none

pub add_answer : Option SurveyAnswer → Option (List SurveyAnswer) → Option (List SurveyAnswer)
add_answer answer? rest? = do answer ← answer?; rest ← rest?; some (answer ∷ rest)

pub normalize_answers : JsItems → Option (List SurveyAnswer)
unfolding normalize_survey_answer add_answer
normalize_answers nil = some []
normalize_answers (item v vs) = add_answer (normalize_survey_answer v) (normalize_answers vs)

pub read_role : Option String → Option ResponderRole
read_role none = none
read_role (some s) =
    if str_eq s "DRep"
    then some drep_role
    else if str_eq s "SPO"
    then some spo_role
    else if str_eq s "CC"
    then some cc_role
    else if str_eq s "Stakeholder"
    then some stakeholder_role
    else none

pub read_answers : JsValue → Option (List SurveyAnswer)
unfolding normalize_answers
read_answers (array vs) = normalize_answers vs
read_answers v = none

pub build_response :
    Option String
    → Option String
    → Option ResponderRole
    → Option (List SurveyAnswer)
    → Option SurveyResponse
build_response version? tx_id? role? answers? = do
  version ← version?
  tx_id ← tx_id?
  role ← role?
  answers ← answers?
  some (record {
    spec_version = version;
    survey_tx_id = tx_id;
    responder_role = role;
    answers = answers;
  })

pub normalize_survey_response : JsValue → Option SurveyResponse
unfolding required_text read_role read_answers normalize_metadata_text build_response
normalize_survey_response (object fs) =
    build_response (required_text "specVersion" fs) (required_text "surveyTxId" fs)
      (read_role (normalize_metadata_text (get_field "responderRole" fs)))
      (read_answers (get_field "answers" fs))
normalize_survey_response v = none

-- `surveyResponse` of a value that is an object; an array has no such property.
pub response_under : JsValue → Option SurveyResponse
unfolding normalize_survey_response
response_under (object fs) = normalize_survey_response (get_field "surveyResponse" fs)
response_under v = none

module _ (text : JsValue → String) where
  -- `item.label ?? item.key ?? item.metadata_label ?? item.tx_metadata_label`, and the payload.
  abbrev label_of : JsFields → JsValue
  label_of fs = or_value (get_field "label" fs) (
      or_value (get_field "key" fs)
        (or_value (get_field "metadata_label" fs) (get_field "tx_metadata_label" fs)))

  abbrev payload_of : JsFields → JsValue
  payload_of fs = or_value (get_field "json" fs) (
      or_value (get_field "json_metadata" fs)
        (or_value (get_field "metadata" fs) (get_field "value" fs)))

  find_label17 : JsItems → JsValue
  find_label17 nil = null
  find_label17 (item (object fs) vs) =
      let rest = find_label17 vs in
      if str_eq (text (label_of fs)) "17" then or_value (payload_of fs) null else rest
  find_label17 (item v vs) = find_label17 vs

  pub extract_label17 : JsValue → JsValue
  unfolding find_label17
  extract_label17 (array vs) = find_label17 vs
  extract_label17 (object fs) = elim (get_field "17" fs) [ undefined ↦ null | v ↦ v ]
  extract_label17 v = null

  unfoldable pub extract_survey_response : JsValue → Option SurveyResponse
  unfolding extract_label17 response_under
  extract_survey_response metadata = response_under (extract_label17 metadata)

  module _ (parse : String → Option JsValue) where
    -- `safeParseJson`: the fields of the object that a text holds.
    object_of : Option JsValue → Option JsFields
    object_of (some (object fs)) = some fs
    object_of v = none

    unfoldable pub safe_parse_json : Option String → Option JsFields
    unfolding object_of
    safe_parse_json none = none
    safe_parse_json (some s) = if str_eq s "" then none else object_of (parse s)

    response_in : Option JsFields → Option SurveyResponse
    unfolding extract_survey_response
    response_in none = none
    response_in (some fs) = extract_survey_response (object fs)

    unfoldable pub safe_parse_survey_response : Option String → Option SurveyResponse
    unfolding safe_parse_json response_in
    safe_parse_survey_response stored = response_in (safe_parse_json stored)
