-- ===== src/Survey/Normalize/Tests.antt =====
-- Responses to a survey with one question, read from metadata and from stored texts.
use cgov_api.Prelude.{[], ◌≡◌, ◌≢◌, refl, Option, none, some, String, ◌∷◌, arith, eq_iff}
use cgov_api.Prelude.Int.{pos}
use cgov_api.Json.{JsValue, get_field}
use cgov_api.Survey.{drep_role, SurveyAnswer, SurveyResponse}
use cgov_api.Survey.Normalize.{
  normalize_survey_response, extract_survey_response, safe_parse_survey_response,
}
use cgov_api.Survey.Normalize.Print.{response_value}
use cgov_api.Survey.Normalize.RoundTrip.{labelled, labelled_round_trip, stored_response_is_lost}

abbrev pub answer : SurveyAnswer
answer = record {
  question_id = "q1";
  selection = some (pos 1 ∷ []);
  numeric_value = none;
  custom_value = none;
}

abbrev pub response : SurveyResponse
response = record {
  spec_version = "1.0.0";
  survey_tx_id = "aa";
  responder_role = drep_role;
  answers = answer ∷ [];
}

abbrev no_text : JsValue → String
no_text v = ""

-- What `JSON.parse` reads of the stored text.
abbrev parse_labelled : String → Option JsValue
parse_labelled s = some (labelled response)

abbrev parse_stored : String → Option JsValue
parse_stored s = some (response_value response)

extracted : extract_survey_response no_text (labelled response) ≡ some response
unfolding extract_survey_response get_field
extracted = refl

is_stored : ◌≢◌ {A = String} "stored" ""
is_stored e = ground (arith, (eq_iff "stored" "").1 e)

labelled_round_trip_example :
    safe_parse_survey_response no_text parse_labelled (some "stored") ≡ some response
labelled_round_trip_example =
    labelled_round_trip no_text parse_labelled (labelled response) response "stored" extracted
      is_stored refl

stored_response_is_lost_example :
    (normalize_survey_response (response_value response) ≡ some response)
    × (safe_parse_survey_response no_text parse_stored (some "stored") ≡ none)
stored_response_is_lost_example =
    stored_response_is_lost no_text parse_stored (labelled response) response "stored" extracted
      is_stored refl
