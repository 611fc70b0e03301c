-- ===== src/Survey/Normalize/Reread.antt =====
-- Reading the object of a response, property by property.
use cgov_api.Survey.Normalize.Readable.{IsPrintable, IsReadableAnswer, IsReadable}
use package.text.Mathlib.Text.{◌==◌ as str_eq}
use cgov_api.Prelude.{
  [], false, ◌≡◌, ◌≢◌, refl, ◌∙◌, Option, none, some, String, List, ◌∷◌, All, arith, eq_iff,
}
use cgov_api.Prelude.Int.{ℤ}
use cgov_api.Json.{
  JsValue, undefined, null, not_finite, boolean, big, number, fraction, str, array, object,
  JsFields, end, get_field,
}
use cgov_api.Survey.{
  role_name, ResponderRole, cc_role, drep_role, spo_role, stakeholder_role, Finite, whole, broken,
  SurveyAnswer, SurveyResponse,
}
use cgov_api.Survey.Normalize.Print.{
  integer_items, selection_value, numeric_value_of, custom_value_of, answer_value, answer_values,
  response_value,
}
use cgov_api.Survey.Normalize.{
  normalize_metadata_text, non_empty_text, required_text, integers, read_selection, read_numeric,
  read_custom, normalize_survey_answer, normalize_answers, read_role, read_answers,
  normalize_survey_response,
}

integers-items : (zs : List ℤ) → integers (integer_items zs) ≡ some zs
unfolding integers
integers-items [] = refl
integers-items (z ∷ zs) = rw (integers-items zs) refl

read_custom-value : (v : JsValue) → v ≢ undefined → read_custom v ≡ some v
unfolding read_custom
read_custom-value undefined ne = absurd (ne refl)
read_custom-value null ne = refl
read_custom-value not_finite ne = refl
read_custom-value (boolean b) ne = refl
read_custom-value (big z) ne = refl
read_custom-value (number z) ne = refl
read_custom-value (fraction t) ne = refl
read_custom-value (str t) ne = refl
read_custom-value (array vs) ne = refl
read_custom-value (object fs) ne = refl

pub non_empty-test : (s : String) → s ≢ "" → str_eq s "" ≡ false
non_empty-test s ne = ground (arith, eq_iff s "")

pub non_empty-text : (s : String) → s ≢ "" → non_empty_text (some s) ≡ some s
non_empty-text s ne = ground (arith, eq_iff s "")

-- Reading one printed property, past the properties before it.
module _ (fs : JsFields) where
  selection-skip :
      (key : String) (s : Option (List ℤ))
      → str_eq "selection" key ≡ false
      → get_field key (selection_value s fs) ≡ get_field key fs
  unfolding get_field
  selection-skip key none h = refl
  selection-skip key (some zs) h = rw h refl

  numeric-skip :
      (key : String) (n : Option Finite)
      → str_eq "numericValue" key ≡ false
      → get_field key (numeric_value_of n fs) ≡ get_field key fs
  unfolding get_field
  numeric-skip key none h = refl
  numeric-skip key (some (whole z)) h = rw h refl
  numeric-skip key (some (broken t)) h = rw h refl

  selection_back :
      (s : Option (List ℤ))
      → get_field "selection" fs ≡ undefined
      → read_selection (get_field "selection" (selection_value s fs)) ≡ some s
  unfolding get_field read_selection
  selection_back none h = rw h refl
  selection_back (some zs) h = rw (integers-items zs) refl

  numeric_back :
      (n : Option Finite)
      → get_field "numericValue" fs ≡ undefined
      → read_numeric (get_field "numericValue" (numeric_value_of n fs)) ≡ some n
  unfolding get_field read_numeric
  numeric_back none h = rw h refl
  numeric_back (some (whole z)) h = refl
  numeric_back (some (broken t)) h = refl

custom-skip :
    (key : String) (c : Option JsValue)
    → str_eq "customValue" key ≡ false
    → get_field key (custom_value_of c end) ≡ undefined
unfolding get_field
custom-skip key none h = refl
custom-skip key (some v) h = rw h refl

custom_back :
    (c : Option JsValue)
    → IsPrintable c
    → read_custom (get_field "customValue" (custom_value_of c end)) ≡ c
unfolding get_field read_custom
custom_back none p = refl
custom_back (some v) p = read_custom-value v p

answer_back :
    (a : SurveyAnswer) → IsReadableAnswer a → normalize_survey_answer (answer_value a) ≡ some a
unfolding normalize_survey_answer required_text normalize_metadata_text get_field
answer_back a (named, printable) =
    let custom = custom_value_of a.custom_value end in
    let numeric = numeric_value_of a.numeric_value custom in
    rw
      (
        non_empty-text a.question_id named,
        selection_back numeric a.selection (
            numeric-skip custom "selection" a.numeric_value refl
            ∙ custom-skip "selection" a.custom_value refl),
        selection-skip numeric "numericValue" a.selection refl,
        numeric_back custom a.numeric_value (custom-skip "numericValue" a.custom_value refl),
        selection-skip numeric "customValue" a.selection refl,
        numeric-skip custom "customValue" a.numeric_value refl,
        custom_back a.custom_value printable,
      )
      refl

answers_back :
    (answers : List SurveyAnswer)
    → All IsReadableAnswer answers
    → normalize_answers (answer_values answers) ≡ some answers
unfolding normalize_answers
answers_back [] h = refl
answers_back (a ∷ answers) h = rw (answer_back a h.0, answers_back answers h.1) refl

role_back : (r : ResponderRole) → read_role (some (role_name r)) ≡ some r
unfolding read_role
role_back drep_role = refl
role_back spo_role = refl
role_back cc_role = refl
role_back stakeholder_role = refl

pub response_back :
    (r : SurveyResponse) → IsReadable r → normalize_survey_response (response_value r) ≡ some r
unfolding normalize_survey_response required_text normalize_metadata_text read_answers get_field
response_back r (version, tx_id, answers) =
    rw
      (
        non_empty-text r.spec_version version,
        non_empty-text r.survey_tx_id tx_id,
        role_back r.responder_role,
        answers_back r.answers answers,
      )
      refl
