-- ===== src/Survey/Validate/Response/Accepted.antt =====
-- What a response without faults has.
use mathlib.Core.Option.{some-injective}
use cgov_api.Prelude.{
  [], ◌≡◌, refl, ap, ◌∙◌, Bool, true, false, Option, none, some, List, ◌∷◌, ◌++◌, ◌or_else◌,
  is_some, not, arith,
}
use cgov_api.Json.{JsFields, get_field}
use cgov_api.Survey.{SurveyDetails}
use cgov_api.Survey.Validate.{Fault, fault_if, is_nil, mode_of, role_not_eligible, late_response}
use cgov_api.Survey.Validate.Response.{
  add_answers, Context, header_faults, answers_faults, response_faults, validate_survey_response,
  is_late,
}

is_nil-append :
    (xs ys : List Fault) → is_nil (xs ++ ys) ≡ true → (is_nil xs ≡ true) × (is_nil ys ≡ true)
is_nil-append [] ys h = (refl, h)
is_nil-append (x ∷ xs) ys h = absurd (ground arith)

is_nil-fault_if : (b : Bool) (e : Fault) → is_nil (fault_if b e) ≡ true → b ≡ false
is_nil-fault_if true e h = absurd (ground arith)
is_nil-fault_if false e h = refl

abbrev pub is_eligible : SurveyDetails → Context → Bool
is_eligible details c =
    is_some (mode_of c.derived_role (c.allowed_role_weighting or_else details.role_weighting))

add_answers-IsClean :
    (header : List Fault) (answers : Option (List Fault)) (eligible late : Bool) (e e' : Fault)
    (faults : List Fault)
    → add_answers (header ++ fault_if (not eligible) e ++ fault_if late e') answers ≡ some faults
    → is_nil faults ≡ true
    → (eligible ≡ true) × (late ≡ false)
unfolding add_answers
add_answers-IsClean header none eligible late e e' faults h clean = absurd (ground arith)
add_answers-IsClean header (some answers) eligible late e e' faults h clean =
    let ineligible = fault_if (not eligible) e in
    let belated = fault_if late e' in
    let all : is_nil (header ++ ineligible ++ belated ++ answers) ≡ true =
      ap is_nil (some-injective _ _ h) ∙ clean in
    let before = (is_nil-append (header ++ ineligible ++ belated) answers all).0 in
    let (others, in_time) = is_nil-append (header ++ ineligible) belated before in
    let taking_part = (is_nil-append header ineligible others).1 in
    (ground (arith, is_nil-fault_if (not eligible) e taking_part), is_nil-fault_if late e' in_time)

-- A response without faults comes from a role that takes part, by the end of the survey.
pub validate-IsEligible :
    (response : Option JsFields) (details : SurveyDetails) (c : Context) (faults : List Fault)
    → validate_survey_response response (some details) c ≡ some faults
    → is_nil faults ≡ true
    → (is_eligible details c ≡ true) × (is_late c.response_epoch details.end_epoch ≡ false)
unfolding validate_survey_response response_faults
validate-IsEligible none details c faults h clean = absurd (ground arith)
validate-IsEligible (some response) details c faults h clean =
    add_answers-IsClean (header_faults response c)
      (answers_faults details.questions (get_field "answers" response)) (is_eligible details c)
      (is_late c.response_epoch details.end_epoch) (role_not_eligible c.derived_role) late_response
      faults h clean
