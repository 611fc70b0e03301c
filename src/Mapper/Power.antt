-- ===== src/Mapper/Power.antt =====
-- The vote information of src/libs/proposalMapper.ts: tallies, and the figures of the three bodies.
-- Lovelace amounts are JavaScript numbers there, as they are here; counts of votes are natural
-- numbers.
pub mod Drep
pub mod Spo
pub mod Committee
pub mod Bounds
pub mod Exact
pub mod Counts
use cgov_api.Prelude.{[], ℕ, ◌+◌, Bool, Option, none, some, String, List, ◌∷◌, if◌then◌else◌}
use cgov_api.Prelude.Int.{pos}
use cgov_api.Governance.{VoteType, yes_vote, no_vote, abstain_vote}
use cgov_api.Mapper.Numbers.{Double}
use cgov_api.Mapper.Votes.{Vote}

pub record CountTally : Type 0 where
  pub yes_count : ℕ
  pub no_count : ℕ
  pub abstain_count : ℕ
  pub total_count : ℕ

-- One round of the loop of `tallyCountVotes`; a vote that is neither yes nor no abstains.
count_vote : CountTally → Option VoteType → CountTally
count_vote t (some yes_vote) = record t { yes_count = t.yes_count + 1 }
count_vote t (some no_vote) = record t { no_count = t.no_count + 1 }
count_vote t (some abstain_vote) = record t { abstain_count = t.abstain_count + 1 }
count_vote t none = record t { abstain_count = t.abstain_count + 1 }

count_votes : CountTally → List Vote → CountTally
unfolding count_vote
count_votes t [] = t
count_votes t (v ∷ vs) = count_votes (count_vote t v.choice) vs

abbrev pub empty_count : CountTally
empty_count = record { yes_count = 0; no_count = 0; abstain_count = 0; total_count = 0 }

pub tally_count_votes : List Vote → CountTally
unfolding count_votes
tally_count_votes votes =
    let t = count_votes empty_count votes in
    record t { total_count = t.yes_count + t.no_count + t.abstain_count }

combine_two : CountTally → CountTally → CountTally
combine_two a b = record {
  yes_count = a.yes_count + b.yes_count;
  no_count = a.no_count + b.no_count;
  abstain_count = a.abstain_count + b.abstain_count;
  total_count = a.total_count + b.total_count;
}

combine_from : CountTally → List CountTally → CountTally
unfolding combine_two
combine_from acc [] = acc
combine_from acc (t ∷ ts) = combine_from (combine_two acc t) ts

unfoldable pub combine_count_tallies : List CountTally → CountTally
unfolding combine_from
combine_count_tallies counts = combine_from empty_count counts

abbrev pub default_cc_members : ℕ
default_cc_members = 7

abbrev pub min_eligible_cc_members : ℕ
min_eligible_cc_members = 7

module _ (d : Double) where
  open d use {Num, of_ℤ, add, sub, mul, div, max, min, lt, eq, to_fixed2, round_text}

  pub record AdaTally : Type 0 where
    pub yes_sum : Num
    pub no_sum : Num
    pub abstain_sum : Num
    pub total_sum : Num

  pub record VoteBreakdown : Type 0 where
    pub active_yes : String
    pub active_no : String
    pub active_abstain : String
    pub always_abstain : String
    pub always_no_confidence : String
    pub inactive : Option String
    pub not_voted : String

  pub record VoteInfo : Type 0 where
    pub yes_percent : Num
    pub no_percent : Num
    pub abstain_percent : Num
    pub yes_lovelace : String
    pub no_lovelace : String
    pub abstain_lovelace : String
    pub breakdown : VoteBreakdown

  pub record CcVoteInfo : Type 0 where
    pub yes_percent : Num
    pub no_percent : Num
    pub abstain_percent : Num
    pub not_voted_percent : Num
    pub yes_count : ℕ
    pub no_count : ℕ
    pub abstain_count : ℕ
    pub not_voted_count : ℕ
    pub eligible_members : ℕ
    pub is_committee_valid : Bool

  abbrev pub nat : ℕ → Num
  nat n = of_ℤ (pos n)

  -- `value === null || value === undefined ? 0 : Number(value)`
  abbrev pub to_number : Option ℕ → Num
  to_number none = nat 0
  to_number (some n) = nat n

  -- `denominator > 0 ? (value / denominator) * 100 : 0`
  unfoldable pub percent_of : Num → Num → Num
  percent_of value denominator =
      if lt (nat 0) denominator then mul (div value denominator) (nat 100) else nat 0

  add_power : AdaTally → Num → Option VoteType → AdaTally
  add_power t power (some yes_vote) = record t { yes_sum = add t.yes_sum power }
  add_power t power (some no_vote) = record t { no_sum = add t.no_sum power }
  add_power t power (some abstain_vote) = record t { abstain_sum = add t.abstain_sum power }
  add_power t power none = record t { abstain_sum = add t.abstain_sum power }

  add_powers : AdaTally → List Vote → AdaTally
  unfolding add_power
  add_powers t [] = t
  add_powers t (v ∷ vs) = add_powers (add_power t (to_number v.voting_power) v.choice) vs

  pub tally_lovelace_votes : List Vote → AdaTally
  unfolding add_powers
  tally_lovelace_votes votes =
      let zeros : AdaTally = record {
        yes_sum = nat 0;
        no_sum = nat 0;
        abstain_sum = nat 0;
        total_sum = nat 0;
      } in
      let t = add_powers zeros votes in
      record t { total_sum = add (add t.yes_sum t.no_sum) t.abstain_sum }

  -- `percent`
  pub percent : Num → Num → Num
  percent value total =
      if eq total (nat 0) then nat 0 else to_fixed2 (mul (div value total) (nat 100))

  -- The fallback where Koios has no voting power.
  pub build_vote_info : AdaTally → VoteInfo
  unfolding percent
  build_vote_info t = record {
    yes_percent = percent t.yes_sum t.total_sum;
    no_percent = percent t.no_sum t.total_sum;
    abstain_percent = percent t.abstain_sum t.total_sum;
    yes_lovelace = round_text t.yes_sum;
    no_lovelace = round_text t.no_sum;
    abstain_lovelace = round_text t.abstain_sum;
    breakdown = record {
      active_yes = round_text t.yes_sum;
      active_no = round_text t.no_sum;
      active_abstain = round_text t.abstain_sum;
      always_abstain = "0";
      always_no_confidence = "0";
      inactive = none;
      not_voted = "0";
    };
  }
