-- ===== src/Survey/Tally/Methods.antt =====
-- `buildMethodResults` and `getVoteWeight`: the answers to each question, weighed. The set of errors
-- is a list without repetitions that the steps pass on.
pub mod Unread
use package.text.Mathlib.Text.{◌==◌ as str_eq}
use cgov_api.Prelude.{
  [], ℕ, zero, suc, Option, none, some, String, List, ◌∷◌, ◌++◌, length, ltb, ◌or_else◌,
  if◌then◌else◌, ◌||◌, ◌&&◌,
}
use cgov_api.Prelude.Int.{ℤ, pos, negsuc}
use cgov_api.Mapper.Numbers.{Double}
use cgov_api.Json.{JsValue}
use cgov_api.Survey.{
  ResponderRole, role_name, WeightingMode, credential_based, stake_based, pledge_based,
  SurveyQuestion, Finite, whole, broken, SurveyAnswer, SurveyResponse,
}
use cgov_api.Survey.Normalize.{append_text, safe_parse_survey_response}
use cgov_api.Survey.Validate.{single_choice, multi_select, numeric_range, has_text}
use cgov_api.Survey.Tally.Votes.{Runtime, SurveyTallyVote}

-- `errors.add(e)`
pub add_error : String → List String → List String
add_error e errors = if has_text e errors then errors else errors ++ e ∷ []

add_maybe : Option String → List String → List String
unfolding add_error
add_maybe none errors = errors
add_maybe (some e) errors = if str_eq e "" then errors else add_error e errors

mode_name : WeightingMode → String
mode_name credential_based = "CredentialBased"
mode_name stake_based = "StakeBased"
mode_name pledge_based = "PledgeBased"

missing_power : ResponderRole → WeightingMode → String
unfolding mode_name
missing_power role mode = append_text "Missing voting power for " (
    append_text (role_name role)
      (append_text " " (append_text (mode_name mode) " response weighting.")))

-- The first answer to the question.
pub find_answer : String → List SurveyAnswer → Option SurveyAnswer
find_answer id [] = none
find_answer id (a ∷ answers) = if str_eq a.question_id id then some a else find_answer id answers

module _ (d : Double) where
  open d use {Num, of_ℤ, add, mul, div, max, min, lt}

  abbrev zero_num : Num
  zero_num = of_ℤ (pos 0)

  -- `Number(votingPower) / 1_000_000`; a power of 0 is falsy.
  power_weight : ResponderRole → WeightingMode → Option ℤ → List String → Num × List String
  unfolding missing_power add_error
  power_weight role mode none errors = (zero_num, add_error (missing_power role mode) errors)
  power_weight role mode (some (pos zero)) errors =
      (zero_num, add_error (missing_power role mode) errors)
  power_weight role mode (some z) errors = (div (of_ℤ z) (of_ℤ (pos 1000000)), errors)

  stake_weight :
      ResponderRole
      → WeightingMode
      → SurveyTallyVote d
      → Option Num
      → List String
      → Num × List String
  unfolding power_weight
  stake_weight role mode vote none errors = power_weight role mode vote.voting_power errors
  stake_weight role mode vote (some weight) errors = (weight, errors)

  pub get_vote_weight :
      ResponderRole → WeightingMode → SurveyTallyVote d → List String → Num × List String
  unfolding stake_weight add_maybe
  get_vote_weight role credential_based vote errors = (of_ℤ (pos 1), errors)
  get_vote_weight role pledge_based vote errors =
      (vote.snapshot_weight or_else zero_num, add_maybe vote.snapshot_weight_error errors)
  get_vote_weight role stake_based vote errors =
      stake_weight role stake_based vote vote.snapshot_weight
        (add_maybe vote.snapshot_weight_error errors)

  pub data MethodResult : Type 0 where
    choices : String → String → List String → List Num → MethodResult
    numbers : String → String → ℕ → Option Num → Option Num → Option Num → MethodResult
    customs : String → String → List (String × Num) → String → MethodResult

  -- `totals[i] += weight`, where `i` is an index.
  add_at : ℕ → Num → List Num → List Num
  add_at i weight [] = []
  add_at zero weight (t ∷ totals) = add t weight ∷ totals
  add_at (suc i) weight (t ∷ totals) = t ∷ add_at i weight totals

  add_selections : List ℤ → Num → List Num → List Num
  unfolding add_at
  add_selections [] weight totals = totals
  add_selections (pos i ∷ selection) weight totals =
      add_selections selection weight
        (if ltb i (length totals) then add_at i weight totals else totals)
  add_selections (negsuc i ∷ selection) weight totals = add_selections selection weight totals

  abbrev zeros : List String → List Num
  zeros [] = []
  zeros (o ∷ options) = zero_num ∷ zeros options

  number_of : Runtime d → Finite → Num
  number_of rt (whole z) = of_ℤ z
  number_of rt (broken t) = rt.read_number t

  -- `totals[key] = (totals[key] ?? 0) + weight`
  add_key : String → Num → List (String × Num) → List (String × Num)
  add_key key weight [] = (key, add zero_num weight) ∷ []
  add_key key weight ((k, t) ∷ totals) =
      if str_eq k key then (k, add t weight) ∷ totals else (k, t) ∷ add_key key weight totals

  least : List Num → Option Num
  least [] = none
  least (x ∷ xs) = some (elim (least xs) [ none ↦ x | some y ↦ min x y ])

  greatest : List Num → Option Num
  greatest [] = none
  greatest (x ∷ xs) = some (elim (greatest xs) [ none ↦ x | some y ↦ max x y ])

  module _ (rt : Runtime d) (role : ResponderRole) (mode : WeightingMode) where
    answer_in : String → Option SurveyResponse → Option SurveyAnswer
    unfolding find_answer
    answer_in id none = none
    answer_in id (some response) = find_answer id response.answers

    pub answer_of : String → SurveyTallyVote d → Option SurveyAnswer
    unfolding answer_in
    answer_of id vote =
        answer_in id (safe_parse_survey_response rt.text rt.parse vote.survey_response)

    -- The turns of the three loops, on the answer of a vote.
    abbrev Choices : Type 0
    Choices = List Num × List String

    count_selection : SurveyTallyVote d → Option (List ℤ) → Choices → Choices
    unfolding get_vote_weight add_selections
    count_selection vote none state = state
    count_selection vote (some selection) (totals, errors) =
        let (weight, errors') = get_vote_weight role mode vote errors in
        (add_selections selection weight totals, errors')

    pub count_choice : SurveyTallyVote d → Option SurveyAnswer → Choices → Choices
    unfolding count_selection
    count_choice vote none state = state
    count_choice vote (some a) state = count_selection vote a.selection state

    pub record Numbers : Type 0 where
      pub values : List Num
      pub weighted_total : Num
      pub total_weight : Num
      pub errors : List String

    add_number : SurveyTallyVote d → Option Finite → Numbers → Numbers
    unfolding get_vote_weight number_of
    add_number vote none state = state
    add_number vote (some x) state =
        let value = number_of rt x in
        let (weight, errors) = get_vote_weight role mode vote state.errors in
        record {
          values = state.values ++ value ∷ [];
          weighted_total = add state.weighted_total (mul value weight);
          total_weight = add state.total_weight weight;
          errors = errors;
        }

    pub count_number : SurveyTallyVote d → Option SurveyAnswer → Numbers → Numbers
    unfolding add_number
    count_number vote none state = state
    count_number vote (some a) state = add_number vote a.numeric_value state

    abbrev Customs : Type 0
    Customs = List (String × Num) × List String

    add_custom : SurveyTallyVote d → Option JsValue → Customs → Customs
    unfolding get_vote_weight add_key
    add_custom vote none state = state
    add_custom vote (some v) (totals, errors) =
        let (weight, errors') = get_vote_weight role mode vote errors in
        (add_key (rt.print v) weight totals, errors')

    pub count_custom : SurveyTallyVote d → Option SurveyAnswer → Customs → Customs
    unfolding add_custom
    count_custom vote none state = state
    count_custom vote (some a) state = add_custom vote a.custom_value state

    -- `for (const vote of votes)`, with the answer of each vote to the question.
    pub over_votes :
        {S : Type 0}
        → (SurveyTallyVote d → Option SurveyAnswer → S → S)
        → String
        → List (SurveyTallyVote d)
        → S
        → S
    unfolding answer_of
    over_votes turn id [] state = state
    over_votes turn id (vote ∷ votes) state =
        over_votes turn id votes (turn vote (answer_of id vote) state)

    number_result : SurveyQuestion → Numbers → MethodResult
    unfolding least greatest
    number_result q n =
        numbers q.question_id q.question (length n.values) (least n.values) (greatest n.values) (
          if ltb 0 (length n.values) && lt zero_num n.total_weight
          then some (div n.weighted_total n.total_weight)
          else none)

    pub question_result :
        SurveyQuestion → List (SurveyTallyVote d) → List String → MethodResult × List String
    unfolding over_votes count_choice count_number count_custom number_result
    question_result q votes errors =
        if str_eq q.method_type single_choice || str_eq q.method_type multi_select
        then (let options = q.options or_else [] in
            let (totals, errors') =
              over_votes count_choice q.question_id votes (zeros options, errors) in
            (choices q.question_id q.question options totals, errors'))
        else if str_eq q.method_type numeric_range
        then (let n = over_votes count_number q.question_id votes (record {
          values = [];
          weighted_total = zero_num;
          total_weight = zero_num;
          errors = errors;
        }) in
            (number_result q n, n.errors))
        else (let (totals, errors') = over_votes count_custom q.question_id votes ([], errors) in
            (customs q.question_id q.question totals q.method_type, errors'))

    pub build_method_results :
        List SurveyQuestion
        → List (SurveyTallyVote d)
        → List String
        → List MethodResult × List String
    unfolding question_result
    build_method_results [] votes errors = ([], errors)
    build_method_results (q ∷ qs) votes errors =
        let (result, errors') = question_result q votes errors in
        let (results, errors'') = build_method_results qs votes errors' in
        (result ∷ results, errors'')
