-- ===== src/Survey/Normalize/RoundTrip.antt =====
-- What `JSON.stringify` prints of a response that `normalizeSurveyResponse` returned, as the object
-- that `JSON.parse` reads back, and how that object is read again.
use cgov_api.Survey.Normalize.Readable.{IsReadable, normalize_response-IsReadable}
use cgov_api.Survey.Normalize.Reread.{response_back, non_empty-test}
use cgov_api.Prelude.{◌≡◌, ◌≢◌, refl, Option, none, some, String, IfSome, IfSome-elim}
use cgov_api.Json.{JsValue, object, end, field, get_field}
use cgov_api.Survey.{SurveyResponse}
use cgov_api.Survey.Normalize.Print.{response_value}
use cgov_api.Survey.Normalize.{
  normalize_survey_response, response_under, extract_label17, extract_survey_response,
  safe_parse_json, object_of, response_in, safe_parse_survey_response,
}

-- A response that was read from any value is read again, without change, from the object that
-- printing it gives.
pub normalize-stable :
    (v : JsValue) (r : SurveyResponse)
    → normalize_survey_response v ≡ some r
    → normalize_survey_response (response_value r) ≡ some r
normalize-stable v r h =
    response_back r (IfSome-elim IsReadable _ r (normalize_response-IsReadable v) h)

-- The metadata of a transaction that carries the response under label 17.
abbrev pub labelled : SurveyResponse → JsValue
labelled r = object (field "17" (object (field "surveyResponse" (response_value r) end)) end)

response_under-IsReadable : (v : JsValue) → IfSome IsReadable (response_under v)
unfolding response_under
response_under-IsReadable (object fs) = normalize_response-IsReadable _
response_under-IsReadable v = tt

module _ (text : JsValue → String) where
  extract-IsReadable :
      (metadata : JsValue) (r : SurveyResponse)
      → extract_survey_response text metadata ≡ some r
      → IsReadable r
  unfolding extract_survey_response
  extract-IsReadable metadata r h = IfSome-elim IsReadable _ r (response_under-IsReadable _) h

module _ (text : JsValue → String) (parse : String → Option JsValue) where
  -- A response that was extracted from metadata of any shape is extracted again, without change, from
  -- a stored text that `JSON.parse` reads as an object with the response under label 17.
  pub labelled_round_trip :
      (metadata : JsValue) (r : SurveyResponse) (stored : String)
      → extract_survey_response text metadata ≡ some r
      → stored ≢ ""
      → parse stored ≡ some (labelled r)
      → safe_parse_survey_response text parse (some stored) ≡ some r
  unfolding extract_survey_response extract_label17 response_under get_field
      safe_parse_survey_response safe_parse_json object_of response_in
  labelled_round_trip metadata r stored h ne p =
      rw (non_empty-test stored ne, p, response_back r (extract-IsReadable text metadata r h)) refl

  -- The text that `ingestSingleVote` stores for a vote, which is the response itself without a label,
  -- is read as no response: whatever response was extracted from the metadata, a stored text that
  -- `JSON.parse` reads as the response's own object gives nothing, although that object is a response
  -- by the same rules.
  pub stored_response_is_lost :
      (metadata : JsValue) (r : SurveyResponse) (stored : String)
      → extract_survey_response text metadata ≡ some r
      → stored ≢ ""
      → parse stored ≡ some (response_value r)
      → (normalize_survey_response (response_value r) ≡ some r)
        × (safe_parse_survey_response text parse (some stored) ≡ none)
  unfolding extract_survey_response extract_label17 response_under get_field
      safe_parse_survey_response safe_parse_json object_of response_in
  stored_response_is_lost metadata r stored h ne p = (
    response_back r (extract-IsReadable text metadata r h),
    rw (non_empty-test stored ne, p) refl,
  )
