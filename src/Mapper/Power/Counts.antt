-- ===== src/Mapper/Power/Counts.antt =====
-- The tallies of src/libs/proposalMapper.ts that count votes.
use cgov_api.Prelude.{[], ℕ, ◌+◌, ◌≡◌, List, ◌∷◌, length, arith}
use cgov_api.Mapper.Votes.{Vote}
use cgov_api.Mapper.Power.{CountTally, empty_count, count_vote, count_votes, tally_count_votes}

abbrev counted : CountTally → ℕ
counted t = t.yes_count + t.no_count + t.abstain_count

count_votes-counted :
    (t : CountTally) (vs : List Vote) → counted (count_votes t vs) ≡ counted t + length vs
unfolding count_votes count_vote
count_votes-counted t [] = omega arith
count_votes-counted t (v ∷ vs) = ground (arith, count_votes-counted (count_vote t v.choice) vs)

-- Each vote is counted once.
pub tally_counts_all :
    (votes : List Vote)
    → let t = tally_count_votes votes in t.yes_count + t.no_count + t.abstain_count ≡ length votes
unfolding tally_count_votes
tally_counts_all votes = omega (arith, count_votes-counted empty_count votes)
