-- ===== src/Mapper/Votes.antt =====
-- The votes of a proposal, from src/libs/proposalMapper.ts: who cast a vote, and which vote of a
-- committee member counts. A date is its number of milliseconds since 1970.
pub mod Latest
use text.Mathlib.Text.{◌==◌ as str_eq}
use cgov_api.Prelude.{
  [], ℕ, Option, none, some, String, List, ◌∷◌, ◌++◌, ltb, ◌or_else◌, ◌or_maybe◌, if◌then◌else◌,
}
use cgov_api.Governance.{VoteType, VoterType, drep, spo, cc}

pub record PartialDrep : Type 0 where
  pub drep_id : String
  pub name : Option String
  pub payment_addr : Option String

pub record PartialSpo : Type 0 where
  pub pool_id : String
  pub pool_name : Option String
  pub ticker : Option String

pub record PartialCc : Type 0 where
  pub cc_id : String
  pub member_name : Option String

pub record Vote : Type 0 where
  pub id : String
  pub tx_hash : String
  pub choice : Option VoteType
  pub voter_type : VoterType
  pub voting_power : Option ℕ
  pub anchor_url : Option String
  pub anchor_hash : Option String
  pub rationale : Option String
  pub voted_at : Option ℕ
  pub created_at : Option ℕ
  pub updated_at : Option ℕ
  pub drep_id : Option String
  pub spo_id : Option String
  pub cc_id : Option String
  pub drep_row : Option PartialDrep
  pub spo_row : Option PartialSpo
  pub cc_row : Option PartialCc

-- `row?.field` of a field that no row leaves out.
abbrev pub field_of : {A : Type 0} → Option A → (A → String) → Option String
field_of none f = none
field_of (some a) f = some (f a)

-- `row?.field` of a nullable field.
abbrev pub nullable_of : {A : Type 0} → Option A → (A → Option String) → Option String
nullable_of none f = none
nullable_of (some a) f = f a

resolve_id_as : VoterType → Vote → String
resolve_id_as drep v = field_of v.drep_row (λ r. r.drep_id) or_maybe v.drep_id or_else v.id
resolve_id_as spo v = field_of v.spo_row (λ r. r.pool_id) or_maybe v.spo_id or_else v.id
resolve_id_as cc v = field_of v.cc_row (λ r. r.cc_id) or_maybe v.cc_id or_else v.id

pub resolve_voter_id : Vote → String
unfolding resolve_id_as
resolve_voter_id v = resolve_id_as v.voter_type v

resolve_name_as : VoterType → Vote → Option String
resolve_name_as drep v =
    nullable_of v.drep_row (λ r. r.name) or_maybe nullable_of v.drep_row (λ r. r.payment_addr)
resolve_name_as spo v =
    nullable_of v.spo_row (λ r. r.pool_name) or_maybe nullable_of v.spo_row (λ r. r.ticker)
resolve_name_as cc v = nullable_of v.cc_row (λ r. r.member_name)

pub resolve_voter_name : Vote → Option String
unfolding resolve_name_as
resolve_voter_name v = resolve_name_as v.voter_type v

pub get_vote_timestamp : Vote → ℕ
get_vote_timestamp v = v.voted_at or_maybe v.created_at or_maybe v.updated_at or_else 0

-- A `Map` from a member to the member's votes, in the order of insertion.
abbrev pub Groups : Type 0
Groups = List (String × List Vote)

-- `existing.push(vote); votesByMember.set(ccId, existing)`
pub push_vote : String → Vote → Groups → Groups
push_vote cc_id vote [] = (cc_id, vote ∷ []) ∷ []
push_vote cc_id vote ((k, votes) ∷ groups) =
    if str_eq k cc_id
    then (k, votes ++ vote ∷ []) ∷ groups
    else (k, votes) ∷ push_vote cc_id vote groups

pub group_votes : Groups → List Vote → Groups
unfolding push_vote
group_votes groups [] = groups
group_votes groups (vote ∷ votes) =
    group_votes (push_vote (resolve_voter_id vote) vote groups) votes

-- The callback of `reduce`.
pub later : Vote → Vote → Vote
later latest current =
    if ltb (get_vote_timestamp latest) (get_vote_timestamp current) then current else latest

pub reduce_later : Vote → List Vote → Vote
unfolding later
reduce_later latest [] = latest
reduce_later latest (v ∷ vs) = reduce_later (later latest v) vs

-- A group is never empty; on one vote `reduce` is not called, and would give that vote.
pub push_latest : List Vote → List Vote → List Vote
unfolding reduce_later
push_latest [] latest_votes = latest_votes
push_latest (v ∷ []) latest_votes = latest_votes ++ v ∷ []
push_latest (v ∷ w ∷ vs) latest_votes = latest_votes ++ reduce_later v (w ∷ vs) ∷ []

pub latest_of_groups : Groups → List Vote → List Vote
unfolding push_latest
latest_of_groups [] latest_votes = latest_votes
latest_of_groups ((_, votes) ∷ groups) latest_votes =
    latest_of_groups groups (push_latest votes latest_votes)

pub get_latest_cc_votes : List Vote → List Vote
unfolding group_votes latest_of_groups
get_latest_cc_votes cc_votes = latest_of_groups (group_votes [] cc_votes) []
