-- ===== src/Survey/Tally/Methods/Unread.antt =====
-- Votes whose stored response is not read by `safeParseSurveyResponse`.
use cgov_api.Prelude.{[], ◌≡◌, refl, Option, none, String, List, ◌∷◌, All}
use cgov_api.Mapper.Numbers.{Double}
use cgov_api.Survey.{SurveyAnswer, ResponderRole, WeightingMode, SurveyQuestion}
use cgov_api.Survey.Normalize.{safe_parse_survey_response}
use cgov_api.Survey.Tally.Votes.{Runtime, SurveyTallyVote}
use cgov_api.Survey.Tally.Methods.{
  answer_in, answer_of, count_choice, count_number, count_custom, over_votes, question_result,
  build_method_results,
}

module _ (d : Double) (rt : Runtime d) (role : ResponderRole) (mode : WeightingMode) where
  abbrev IsUnread : SurveyTallyVote d → Type 0
  IsUnread vote = safe_parse_survey_response rt.text rt.parse vote.survey_response ≡ none

  over_votes-unread :
      {S : Type 0} (turn : SurveyTallyVote d → Option SurveyAnswer → S → S) (id : String)
      (votes : List (SurveyTallyVote d)) (state : S)
      → ((vote : SurveyTallyVote d) (s : S) → turn vote none s ≡ s)
      → All IsUnread votes
      → over_votes d rt role mode turn id votes state ≡ state
  unfolding over_votes answer_of answer_in
  over_votes-unread turn id [] state idle h = refl
  over_votes-unread turn id (vote ∷ votes) state idle h =
      rw (h.0, idle vote state) (over_votes-unread turn id votes state idle h.1)

  question_result-unread :
      (q : SurveyQuestion) (votes : List (SurveyTallyVote d)) (errors : List String)
      → All IsUnread votes
      → question_result d rt role mode q votes errors ≡ question_result d rt role mode q [] errors
  unfolding question_result over_votes count_choice count_number count_custom
  question_result-unread q votes errors h =
      rw
        (
          over_votes-unread (count_choice d rt role mode) q.question_id votes _ (λ vote s. refl) h,
          over_votes-unread (count_number d rt role mode) q.question_id votes _ (λ vote s. refl) h,
          over_votes-unread (count_custom d rt role mode) q.question_id votes _ (λ vote s. refl) h,
        )
        refl

  -- Votes whose stored text is read as no response leave no trace in the results of any question, nor
  -- in the errors: the results are those of no votes.
  pub unread_votes_uncounted :
      (questions : List SurveyQuestion) (votes : List (SurveyTallyVote d)) (errors : List String)
      → All IsUnread votes
      → build_method_results d rt role mode questions votes errors
        ≡ build_method_results d rt role mode questions [] errors
  unfolding build_method_results
  unread_votes_uncounted [] votes errors h = refl
  unread_votes_uncounted (q ∷ qs) votes errors h =
      rw (question_result-unread q votes errors h, unread_votes_uncounted qs votes _ h) refl
