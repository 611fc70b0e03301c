-- ===== src/Mapper/Action.antt =====
-- What a governance action and its detail view say of the votes.
use cgov_api.Prelude.{
  [], ℕ, suc, ◌+◌, ◌≡◌, refl, ap, Option, none, some, List, ◌∷◌, map, length, filter, true, false,
  not, arith, inl, inr, ◌⊎◌,
}
use cgov_api.Governance.{VoterType, drep, spo, cc}
use cgov_api.Mapper.Numbers.{Double}
use cgov_api.Mapper.Votes.{Vote, get_latest_cc_votes}
use cgov_api.Mapper.Power.{combine_count_tallies}
use cgov_api.Mapper.Power.Counts.{tally_counts_all}
use cgov_api.Mapper.{
  map_proposal_to_governance_action, map_proposal_to_governance_action_detail, non_empty,
}
use cgov_api.Mapper.Row.{Proposal}
use cgov_api.Mapper.Records.{Runtime, is_voter, same_voter_type, VoteRecord, map_vote_record}

abbrev pub votes_of : VoterType → Proposal → List Vote
votes_of k p = filter (is_voter k) p.onchain_votes

-- The committee votes that count.
abbrev pub counted_cc_votes : Proposal → List Vote
counted_cc_votes p = get_latest_cc_votes (votes_of cc p)

abbrev pub listed : Option (List VoteRecord) → ℕ
listed none = 0
listed (some records) = length records

non_empty-listed : (records : List VoteRecord) → listed (non_empty records) ≡ length records
unfolding non_empty
non_empty-listed [] = refl
non_empty-listed (x ∷ xs) = refl

length-map {ℓ κ} :
    {A : Type ℓ} {B : Type κ} (f : A → B) (xs : List A) → length (map f xs) ≡ length xs
length-map f [] = refl
length-map f (x ∷ xs) = ap suc (length-map f xs)

one_of_three :
    (k : VoterType)
    → ((same_voter_type k drep ≡ true)
        × (same_voter_type k spo ≡ false)
        × (same_voter_type k cc ≡ false))
      ⊎ ((same_voter_type k drep ≡ false)
          × (same_voter_type k spo ≡ true)
          × (same_voter_type k cc ≡ false))
      ⊎ ((same_voter_type k drep ≡ false)
          × (same_voter_type k spo ≡ false)
          × (same_voter_type k cc ≡ true))
unfolding same_voter_type
one_of_three drep = inl (refl, refl, refl)
one_of_three spo = inr (inl (refl, refl, refl))
one_of_three cc = inr (inr (refl, refl, refl))

one_voter_type :
    (v : Vote)
    → ((is_voter drep v ≡ true) × (is_voter spo v ≡ false) × (is_voter cc v ≡ false))
      ⊎ ((is_voter drep v ≡ false) × (is_voter spo v ≡ true) × (is_voter cc v ≡ false))
      ⊎ ((is_voter drep v ≡ false) × (is_voter spo v ≡ false) × (is_voter cc v ≡ true))
unfolding is_voter
one_voter_type v = one_of_three v.voter_type

standard_votes_length :
    (votes : List Vote)
    → length (filter (λ v. not (is_voter cc v)) votes)
      ≡ length (filter (is_voter drep) votes) + length (filter (is_voter spo) votes)
standard_votes_length [] = omega arith
standard_votes_length (v ∷ vs) = ground (arith, one_voter_type v, standard_votes_length vs)

module _ (d : Double) (r : Runtime) (p : Proposal) (eligible : Option ℕ) where
  -- The yes, no and abstain totals count every DRep and SPO vote, and the committee votes that count.
  pub totals_count_votes :
      let a = map_proposal_to_governance_action d r p eligible in
      a.total_yes + a.total_no + a.total_abstain
      ≡ length (votes_of drep p) + length (votes_of spo p) + length (counted_cc_votes p)
  unfolding map_proposal_to_governance_action combine_count_tallies
  totals_count_votes = omega (
    arith,
    tally_counts_all (votes_of drep p),
    tally_counts_all (votes_of spo p),
    tally_counts_all (counted_cc_votes p),
  )

  -- The yes, no and abstain totals of the action are the number of votes that the detail view lists.
  pub detail_lists_totals :
      let v = map_proposal_to_governance_action_detail d r p eligible in
      v.action.total_yes + v.action.total_no + v.action.total_abstain
      ≡ listed v.votes + listed v.cc_votes
  unfolding map_proposal_to_governance_action_detail
  detail_lists_totals = omega (
    arith,
    totals_count_votes,
    non_empty-listed (map (map_vote_record r) (filter (λ v. not (is_voter cc v)) p.onchain_votes)),
    non_empty-listed (map (map_vote_record r) (counted_cc_votes p)),
    length-map (map_vote_record r) (filter (λ v. not (is_voter cc v)) p.onchain_votes),
    length-map (map_vote_record r) (counted_cc_votes p),
    standard_votes_length p.onchain_votes,
  )
