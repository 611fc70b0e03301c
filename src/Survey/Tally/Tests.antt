-- ===== src/Survey/Tally/Tests.antt =====
-- The tally of a survey with one question, which two DReps answered.
use cgov_api.Survey.Tally.Votes.Order.{IsOrder}
use cgov_api.Survey.Tally.Votes.Newest.{HasDistinctVoters, IsSuperseded, dedupe_votes_lem}
use cgov_api.Prelude.{[], Has, ◌≡◌, refl, false, none, some, List, ◌∷◌, All}
use cgov_api.Prelude.Int.{pos}
use cgov_api.Governance.{drep, spo}
use cgov_api.Mapper.Tests.{whole_numbers}
use cgov_api.Json.{get_field}
use cgov_api.Survey.{drep_role, credential_based, SurveyDetails}
use cgov_api.Survey.Normalize.RoundTrip.{labelled}
use cgov_api.Survey.Normalize.Tests.{response}
use cgov_api.Survey.Normalize.Print.{response_value}
use cgov_api.Survey.Normalize.{safe_parse_survey_response, safe_parse_json, extract_survey_response}
use cgov_api.Survey.Validate.Response.{validate_survey_response}
use cgov_api.Survey.Validate.{mode_of, single_choice}
use cgov_api.Survey.Tally.{SurveyTally, TallyOptions, build_survey_tally, vote_faults}
use cgov_api.Survey.Tally.Votes.{Runtime, SurveyTallyVote, dedupe_votes}
use cgov_api.Survey.Tally.Methods.{build_method_results}
use cgov_api.Survey.Tally.Methods.Unread.{unread_votes_uncounted}
use cgov_api.Survey.Tally.Totals.{IsSum, tally_conserves}

abbrev details : SurveyDetails
details = record {
  spec_version = "1.0.0";
  title = "t";
  description = "d";
  questions =
      record {
        question_id = "q1";
        question = "which";
        method_type = single_choice;
        options = some ("a" ∷ "b" ∷ []);
        max_selections = none;
        numeric_constraints = none;
        method_schema_uri = none;
        method_schema_hash = none;
      }
      ∷ [];
  role_weighting = (drep_role, credential_based) ∷ [];
  end_epoch = pos 600;
}

abbrev labelled_runtime : Runtime whole_numbers
labelled_runtime = record {
  text = λ v. "";
  parse = λ s. some (labelled response);
  print = λ v. "";
  read_number = λ s. pos 0;
  locale_compare = λ a b. pos 0;
}

-- Texts that hold the response without a label.
abbrev stored_runtime : Runtime whole_numbers
stored_runtime = record labelled_runtime { parse = λ s. some (response_value response) }

abbrev vote : SurveyTallyVote whole_numbers
vote = record {
  tx_hash = "bb";
  voter_type = drep;
  voter_id = "d1";
  voting_power = some (pos 5);
  response_epoch = some (pos 599);
  voted_at = none;
  survey_response = some "stored";
  absolute_slot = some (pos 10);
  tx_block_index = none;
  metadata_position = none;
  response_credential = none;
  linked_vote_evidence = none;
  snapshot_weight = none;
  snapshot_weight_error = none;
}

-- A later vote of the same DRep, and one of a pool, which does not take part.
abbrev votes : List (SurveyTallyVote whole_numbers)
votes = vote ∷ record vote { absolute_slot = some (pos 11) } ∷ record vote { voter_type = spo } ∷ []

abbrev options : TallyOptions whole_numbers
options = record {
  phase = none;
  as_of_epoch = none;
  finalization_epoch = none;
  warnings = [];
  enforce_linked_vote_evidence = false;
}

tally_conserves_example :
    (t : SurveyTally whole_numbers) × (build_survey_tally whole_numbers labelled_runtime "aa"
        details details.role_weighting votes options
      ≡ some t)
    × (t.totals.total_seen ≡ 3)
    × IsSum t.totals
    × All (λ r. IsSum r.totals) t.role_results
unfolding vote_faults get_field mode_of safe_parse_json extract_survey_response
    validate_survey_response
tally_conserves_example =
    tally_conserves whole_numbers labelled_runtime "aa" details details.role_weighting votes options
      (refl, tt) ((_, refl), ((_, refl), ((_, refl), tt)))

unread_votes_uncounted_example :
    build_method_results whole_numbers stored_runtime drep_role credential_based details.questions
      votes []
    ≡ build_method_results whole_numbers stored_runtime drep_role credential_based details.questions
        [] []
unfolding safe_parse_survey_response get_field
unread_votes_uncounted_example =
    unread_votes_uncounted whole_numbers stored_runtime drep_role credential_based details.questions
      votes [] (refl, (refl, (refl, tt)))

collation : IsOrder labelled_runtime.locale_compare
collation = record { one_way = λ a b h. refl; transitive = λ a b c h h'. refl }

dedupe_votes_lem_example :
    let kept = dedupe_votes whole_numbers labelled_runtime votes in
    All (λ w. Has w votes) kept
    × HasDistinctVoters whole_numbers labelled_runtime kept
    × All (IsSuperseded whole_numbers labelled_runtime kept) votes
dedupe_votes_lem_example = dedupe_votes_lem whole_numbers labelled_runtime votes collation
