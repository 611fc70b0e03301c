-- ===== src/Survey/Tally/Votes/Newest.antt =====
-- Which votes `dedupeVotes` keeps.
use cgov_api.Survey.Tally.Votes.Entries.{
  FreshKey, HasKeysApart, IsEntry, IsNotAfter, IsCovered, latest-IsCovered, latest-IsEntry,
}
use cgov_api.Prelude.{
  [], ◌≡◌, ◌≢◌, inl, inr, refl, sym, ◌∙◌, String, List, ◌∷◌, All, Has, All-of_Has,
}
use cgov_api.Mapper.Numbers.{Double}
use cgov_api.Survey.Tally.Votes.{
  Runtime, SurveyTallyVote, voter_key, LatestByVoter, latest_by_voter, values_of, dedupe_votes,
}
use cgov_api.Survey.Tally.Votes.Order.{IsOrder, compare_votes-IsOrder}

module _ (d : Double) (rt : Runtime d) where
  abbrev pub HasDistinctVoters : List (SurveyTallyVote d) → Type 0
  HasDistinctVoters [] = Unit {0}
  HasDistinctVoters (w ∷ ws) = All (λ u. voter_key d u ≢ voter_key d w) ws × HasDistinctVoters ws

  -- A vote of the same voter is kept, and this one does not come after it.
  abbrev pub IsSuperseded : List (SurveyTallyVote d) → SurveyTallyVote d → Type 0
  IsSuperseded kept v =
      (w : SurveyTallyVote d) × Has w kept × (voter_key d w ≡ voter_key d v) × IsNotAfter d rt v w

  module _ (all : List (SurveyTallyVote d)) where
    values-fresh :
        (w : SurveyTallyVote d) (k : String) (entries : LatestByVoter d)
        → voter_key d w ≡ k
        → All (IsEntry d rt all) entries
        → FreshKey k entries
        → All (λ u. voter_key d u ≢ voter_key d w) (values_of d entries)
    values-fresh w k [] own h fresh = tt
    values-fresh w k ((i, u) ∷ entries) own h fresh =
        (λ e. fresh.0 (sym h.0.0 ∙ e ∙ own), values-fresh w k entries own h.1 fresh.1)

    values-HasDistinctVoters :
        (entries : LatestByVoter d)
        → All (IsEntry d rt all) entries
        → HasKeysApart entries
        → HasDistinctVoters (values_of d entries)
    values-HasDistinctVoters [] h apart = tt
    values-HasDistinctVoters ((k, w) ∷ entries) h apart =
        (values-fresh w k entries h.0.0 h.1 apart.0, values-HasDistinctVoters entries h.1 apart.1)

    values-Has :
        (entries : LatestByVoter d)
        → All (IsEntry d rt all) entries
        → All (λ w. Has w all) (values_of d entries)
    values-Has [] h = tt
    values-Has ((k, w) ∷ entries) h = (h.0.1, values-Has entries h.1)

    values-IsSuperseded :
        (v : SurveyTallyVote d) (entries : LatestByVoter d)
        → All (IsEntry d rt all) entries
        → IsCovered d rt v entries
        → IsSuperseded (values_of d entries) v
    values-IsSuperseded v [] h covered = absurd covered
    values-IsSuperseded v ((k, w) ∷ entries) h (inl (own, after)) =
        (w, inl refl, h.0.0 ∙ own, after)
    values-IsSuperseded v ((k, w) ∷ entries) h (inr there) =
        let (u, has, own, after) = values-IsSuperseded v entries h.1 there in
        (u, inr has, own, after)

  -- If `localeCompare` is an order, `dedupeVotes` keeps votes of the list, no two of the same voter, and
  -- for each vote of the list keeps one of its voter that it does not come after.
  pub dedupe_votes_lem :
      (votes : List (SurveyTallyVote d))
      → IsOrder rt.locale_compare
      → All (λ w. Has w votes) (dedupe_votes d rt votes)
        × HasDistinctVoters (dedupe_votes d rt votes)
        × All (IsSuperseded (dedupe_votes d rt votes)) votes
  unfolding dedupe_votes
  dedupe_votes_lem votes collation =
      let entries = latest_by_voter d rt votes [] in
      let (from, apart) =
        latest-IsEntry d rt votes votes [] (All-of_Has (λ v. Has v votes) votes (λ v h. h)) tt tt in
      (
        values-Has votes entries from,
        values-HasDistinctVoters votes entries from apart,
        All-of_Has (IsSuperseded (values_of d entries)) votes (λ v h.
            values-IsSuperseded votes v entries from
              (latest-IsCovered d rt (compare_votes-IsOrder d rt collation) v votes [] (inr h))),
      )
