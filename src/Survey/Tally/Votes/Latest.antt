-- ===== src/Survey/Tally/Votes/Latest.antt =====
-- The map of `dedupeVotes` holds one vote for each voter.
use cgov_api.Prelude.{[], ◌+◌, ◌≤◌, ◌≡◌, refl, String, List, ◌∷◌, length, arith}
use cgov_api.Mapper.Numbers.{Double}
use cgov_api.Survey.Tally.Votes.{
  Runtime, SurveyTallyVote, voter_key, LatestByVoter, put_latest, latest_by_voter, values_of,
  dedupe_votes,
}

module _ (d : Double) (rt : Runtime d) where
  put_latest-length :
      (key : String) (vote : SurveyTallyVote d) (latest : LatestByVoter d)
      → length (put_latest d rt key vote latest) ≤ length latest + 1
  unfolding put_latest
  put_latest-length key vote [] = omega arith
  put_latest-length key vote ((k, current) ∷ rest) = ground (arith, put_latest-length key vote rest)

  latest_by_voter-length :
      (votes : List (SurveyTallyVote d)) (latest : LatestByVoter d)
      → length (latest_by_voter d rt votes latest) ≤ length latest + length votes
  unfolding latest_by_voter
  latest_by_voter-length [] latest = omega arith
  latest_by_voter-length (vote ∷ votes) latest = omega (
    arith,
    latest_by_voter-length votes (put_latest d rt (voter_key d vote) vote latest),
    put_latest-length (voter_key d vote) vote latest,
  )

  values_of-length : (latest : LatestByVoter d) → length (values_of d latest) ≡ length latest
  values_of-length [] = refl
  values_of-length ((k, vote) ∷ rest) = omega (arith, values_of-length rest)

  pub dedupe_votes-length :
      (votes : List (SurveyTallyVote d)) → length (dedupe_votes d rt votes) ≤ length votes
  unfolding dedupe_votes
  dedupe_votes-length votes =
      omega
        (arith, latest_by_voter-length votes [], values_of-length (latest_by_voter d rt votes []))
