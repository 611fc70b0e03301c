-- ===== src/Survey/Tally/Votes.antt =====
-- `SurveyTallyVote`, `compareVotes` and `dedupeVotes`, and what the tally takes from JavaScript.
pub mod Latest
pub mod Entries
pub mod Newest
pub mod Order
use package.text.Mathlib.Text.{◌==◌ as str_eq}
use cgov_api.Prelude.{[], Option, String, List, ◌∷◌, ◌or_else◌, if◌then◌else◌, ◌||◌}
use cgov_api.Prelude.Int.{ℤ, pos, negsuc, ltb_ℤ, ◌-ℤ◌}
use cgov_api.Governance.{VoterType, drep, spo, cc}
use cgov_api.Mapper.Numbers.{Double}
use cgov_api.Json.{JsValue}
use cgov_api.Survey.Normalize.{append_text}
use cgov_api.Survey.Validate.Response.{LinkedVoteEvidence}

-- `a !== b`, then the difference; otherwise what follows.
difference_or : ℤ → ℤ → ℤ → ℤ
difference_or a b rest = if ltb_ℤ a b || ltb_ℤ b a then a -ℤ b else rest

voter_type_name : VoterType → String
voter_type_name drep = "DREP"
voter_type_name spo = "SPO"
voter_type_name cc = "CC"

module _ (d : Double) where
  -- `String(v)`, `JSON.parse`, `JSON.stringify`, `Number(text)` of a numeral that is no integer, and
  -- `localeCompare`.
  pub record Runtime : Type 0 where
    pub text : JsValue → String
    pub parse : String → Option JsValue
    pub print : JsValue → String
    pub read_number : String → d.Num
    pub locale_compare : String → String → ℤ

  pub record SurveyTallyVote : Type 0 where
    pub tx_hash : String
    pub voter_type : VoterType
    pub voter_id : String
    pub voting_power : Option ℤ
    pub response_epoch : Option ℤ
    pub voted_at : Option ℤ
    pub survey_response : Option String
    pub absolute_slot : Option ℤ
    pub tx_block_index : Option ℤ
    pub metadata_position : Option ℤ
    pub response_credential : Option String
    pub linked_vote_evidence : Option LinkedVoteEvidence
    pub snapshot_weight : Option d.Num
    pub snapshot_weight_error : Option String

  pub compare_votes : Runtime → SurveyTallyVote → SurveyTallyVote → ℤ
  unfolding difference_or
  compare_votes rt left right =
      difference_or (left.absolute_slot or_else negsuc 0) (right.absolute_slot or_else negsuc 0) (
        difference_or (left.tx_block_index or_else negsuc 0) (right.tx_block_index or_else negsuc 0)
          (difference_or (left.metadata_position or_else pos 0)
            (right.metadata_position or_else pos 0)
            (difference_or (left.voted_at or_else pos 0) (right.voted_at or_else pos 0)
              (rt.locale_compare left.tx_hash right.tx_hash))))

  pub voter_key : SurveyTallyVote → String
  unfolding voter_type_name
  voter_key vote =
      vote.response_credential
      or_else append_text (voter_type_name vote.voter_type) (append_text ":" vote.voter_id)

  pub newer : Runtime → SurveyTallyVote → SurveyTallyVote → SurveyTallyVote
  unfolding compare_votes
  newer rt vote current = if ltb_ℤ (pos 0) (compare_votes rt vote current) then vote else current

  -- The map from voters to votes, in the order of its insertions.
  abbrev pub LatestByVoter : Type 0
  LatestByVoter = List (String × SurveyTallyVote)

  pub put_latest : Runtime → String → SurveyTallyVote → LatestByVoter → LatestByVoter
  unfolding newer
  put_latest rt key vote [] = (key, vote) ∷ []
  put_latest rt key vote ((k, current) ∷ rest) =
      if str_eq k key
      then (k, newer rt vote current) ∷ rest
      else (k, current) ∷ put_latest rt key vote rest

  pub latest_by_voter : Runtime → List SurveyTallyVote → LatestByVoter → LatestByVoter
  unfolding put_latest voter_key
  latest_by_voter rt [] latest = latest
  latest_by_voter rt (vote ∷ votes) latest =
      latest_by_voter rt votes (put_latest rt (voter_key vote) vote latest)

  abbrev pub values_of : LatestByVoter → List SurveyTallyVote
  values_of [] = []
  values_of ((k, vote) ∷ rest) = vote ∷ values_of rest

  pub dedupe_votes : Runtime → List SurveyTallyVote → List SurveyTallyVote
  unfolding latest_by_voter
  dedupe_votes rt votes = values_of (latest_by_voter rt votes [])
