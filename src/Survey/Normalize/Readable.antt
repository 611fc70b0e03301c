-- ===== src/Survey/Normalize/Readable.antt =====
-- The responses that reading can return: their texts are not empty, and their values are printed.
use package.text.Mathlib.Text.{◌==◌ as str_eq}
use cgov_api.Prelude.{
  ◌≢◌, Option, none, some, inl, inr, String, List, All, arith, eq_iff, IfSome, Bool-cases, inl, inr,
}
use cgov_api.Prelude.Int.{ℤ}
use cgov_api.Json.{
  JsValue, undefined, null, not_finite, boolean, big, number, fraction, str, array, object, JsItems,
  nil, item, get_field,
}
use cgov_api.Survey.{ResponderRole, Finite, SurveyAnswer, SurveyResponse}
use cgov_api.Survey.Normalize.{
  normalize_metadata_text, non_empty_text, required_text, read_selection, read_numeric, read_custom,
  build_answer, add_answer, build_response, normalize_survey_answer, normalize_answers, read_role,
  read_answers, normalize_survey_response,
}

abbrev pub IsNonEmpty : String → Type 0
IsNonEmpty s = s ≢ ""

abbrev pub IsPrintable : Option JsValue → Type 0
IsPrintable none = Unit {0}
IsPrintable (some v) = v ≢ undefined

abbrev pub IsReadableAnswer : SurveyAnswer → Type 0
IsReadableAnswer a = IsNonEmpty a.question_id × IsPrintable a.custom_value

abbrev pub IsReadable : SurveyResponse → Type 0
IsReadable r =
    IsNonEmpty r.spec_version × IsNonEmpty r.survey_tx_id × All IsReadableAnswer r.answers

-- What is read back is printable.
non_empty_text-NonEmpty : (o : Option String) → IfSome IsNonEmpty (non_empty_text o)
non_empty_text-NonEmpty none = tt
non_empty_text-NonEmpty (some t) = elim (Bool-cases (str_eq t "")) [
  | inl e ↦ rw e tt
  | inr e ↦ rw e (λ q. ground (arith, eq_iff t ""))
]

read_custom-IsPrintable : (v : JsValue) → IsPrintable (read_custom v)
unfolding read_custom
read_custom-IsPrintable undefined = tt
read_custom-IsPrintable null = λ e. cc
read_custom-IsPrintable not_finite = λ e. cc
read_custom-IsPrintable (boolean b) = λ e. cc
read_custom-IsPrintable (big z) = λ e. cc
read_custom-IsPrintable (number z) = λ e. cc
read_custom-IsPrintable (fraction t) = λ e. cc
read_custom-IsPrintable (str t) = λ e. cc
read_custom-IsPrintable (array vs) = λ e. cc
read_custom-IsPrintable (object fs) = λ e. cc

build_answer-IsReadable :
    (id : Option String) (s : Option (Option (List ℤ))) (n : Option (Option Finite))
    (c : Option JsValue)
    → IfSome IsNonEmpty id
    → IsPrintable c
    → IfSome IsReadableAnswer (build_answer id s n c)
unfolding build_answer
build_answer-IsReadable none s n c named printable = tt
build_answer-IsReadable (some id) none n c named printable = tt
build_answer-IsReadable (some id) (some s) none c named printable = tt
build_answer-IsReadable (some id) (some s) (some n) c named printable = (named, printable)

normalize_answer-IsReadable : (v : JsValue) → IfSome IsReadableAnswer (normalize_survey_answer v)
unfolding normalize_survey_answer required_text
normalize_answer-IsReadable (object fs) =
    build_answer-IsReadable _ (read_selection (get_field "selection" fs))
      (read_numeric (get_field "numericValue" fs)) _
      (non_empty_text-NonEmpty (normalize_metadata_text (get_field "questionId" fs)))
      (read_custom-IsPrintable (get_field "customValue" fs))
normalize_answer-IsReadable v = tt

add_answer-IsReadable :
    (a : Option SurveyAnswer) (rest : Option (List SurveyAnswer))
    → IfSome IsReadableAnswer a
    → IfSome (All IsReadableAnswer) rest
    → IfSome (All IsReadableAnswer) (add_answer a rest)
unfolding add_answer
add_answer-IsReadable none rest h t = tt
add_answer-IsReadable (some a) none h t = tt
add_answer-IsReadable (some a) (some rest) h t = (h, t)

normalize_answers-IsReadable : (vs : JsItems) → IfSome (All IsReadableAnswer) (normalize_answers vs)
unfolding normalize_answers
normalize_answers-IsReadable nil = tt
normalize_answers-IsReadable (item v vs) =
    add_answer-IsReadable (normalize_survey_answer v) (normalize_answers vs)
      (normalize_answer-IsReadable v) (normalize_answers-IsReadable vs)

read_answers-IsReadable : (v : JsValue) → IfSome (All IsReadableAnswer) (read_answers v)
unfolding read_answers
read_answers-IsReadable (array vs) = normalize_answers-IsReadable vs
read_answers-IsReadable v = tt

build_response-IsReadable :
    (version tx_id : Option String) (role : Option ResponderRole)
    (answers : Option (List SurveyAnswer))
    → IfSome IsNonEmpty version
    → IfSome IsNonEmpty tx_id
    → IfSome (All IsReadableAnswer) answers
    → IfSome IsReadable (build_response version tx_id role answers)
unfolding build_response
build_response-IsReadable none tx_id role answers hv ht ha = tt
build_response-IsReadable (some version) none role answers hv ht ha = tt
build_response-IsReadable (some version) (some tx_id) none answers hv ht ha = tt
build_response-IsReadable (some version) (some tx_id) (some role) none hv ht ha = tt
build_response-IsReadable (some version) (some tx_id) (some role) (some answers) hv ht ha =
    (hv, ht, ha)

pub normalize_response-IsReadable : (v : JsValue) → IfSome IsReadable (normalize_survey_response v)
unfolding normalize_survey_response required_text
normalize_response-IsReadable (object fs) =
    build_response-IsReadable _ _
      (read_role (normalize_metadata_text (get_field "responderRole" fs))) _
      (non_empty_text-NonEmpty (normalize_metadata_text (get_field "specVersion" fs)))
      (non_empty_text-NonEmpty (normalize_metadata_text (get_field "surveyTxId" fs)))
      (read_answers-IsReadable (get_field "answers" fs))
normalize_response-IsReadable v = tt
