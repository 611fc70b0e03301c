-- ===== src/Survey/Normalize/Print.antt =====
-- The object of a response that `normalizeSurveyResponse` returns, with the properties that are there.
use cgov_api.Prelude.{[], Option, none, some, List, ◌∷◌}
use cgov_api.Prelude.Int.{ℤ}
use cgov_api.Json.{
  JsValue, number, fraction, str, array, object, JsItems, nil, item, JsFields, end, field,
}
use cgov_api.Survey.{role_name, Finite, whole, broken, SurveyAnswer, SurveyResponse}

abbrev pub integer_items : List ℤ → JsItems
integer_items [] = nil
integer_items (z ∷ zs) = item (number z) (integer_items zs)

-- A property whose value is undefined is not printed.
abbrev pub selection_value : Option (List ℤ) → JsFields → JsFields
selection_value none fs = fs
selection_value (some zs) fs = field "selection" (array (integer_items zs)) fs

abbrev pub numeric_value_of : Option Finite → JsFields → JsFields
numeric_value_of none fs = fs
numeric_value_of (some (whole z)) fs = field "numericValue" (number z) fs
numeric_value_of (some (broken t)) fs = field "numericValue" (fraction t) fs

abbrev pub custom_value_of : Option JsValue → JsFields → JsFields
custom_value_of none fs = fs
custom_value_of (some v) fs = field "customValue" v fs

abbrev pub answer_value : SurveyAnswer → JsValue
answer_value a = object (
    field "questionId" (str a.question_id) (
      selection_value a.selection
        (numeric_value_of a.numeric_value (custom_value_of a.custom_value end))))

abbrev pub answer_values : List SurveyAnswer → JsItems
answer_values [] = nil
answer_values (a ∷ answers) = item (answer_value a) (answer_values answers)

abbrev pub response_fields : SurveyResponse → JsFields
response_fields r =
    (field "specVersion" (str r.spec_version) (
      field "surveyTxId" (str r.survey_tx_id) (
        field "responderRole" (str (role_name r.responder_role))
          (field "answers" (array (answer_values r.answers)) end))))

abbrev pub response_value : SurveyResponse → JsValue
response_value r = object (response_fields r)
