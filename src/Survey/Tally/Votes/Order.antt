-- ===== src/Survey/Tally/Votes/Order.antt =====
-- `compareVotes` is an order, if `localeCompare` is.
use cgov_api.Prelude.{subst, sym, ◌∙◌, ◌<◌, ◌+◌, ◌≡◌, ◌⊎◌, inl, inr, true, false, arith, ◌or_else◌}
use cgov_api.Prelude.Int.{ℤ, pos, negsuc, ltb_ℤ, ◌-ℤ◌, pos_part, neg_part, eq_of_parts}
use cgov_api.Mapper.Numbers.{Double}
use cgov_api.Survey.Tally.Votes.{Runtime, SurveyTallyVote, difference_or, compare_votes}

-- A comparison that says "after" says so of one direction only, and "not after" is transitive.
pub record IsOrder {ℓ} {A : Type ℓ} (compare : A → A → ℤ) : Type ℓ where
  pub one_way : (a b : A) → ltb_ℤ (pos 0) (compare a b) ≡ true → ltb_ℤ (pos 0) (compare b a) ≡ false
  pub transitive :
      (a b c : A)
      → ltb_ℤ (pos 0) (compare a b) ≡ false
      → ltb_ℤ (pos 0) (compare b c) ≡ false
      → ltb_ℤ (pos 0) (compare a c) ≡ false

difference_one_way :
    (a b r r' : ℤ)
    → (ltb_ℤ (pos 0) r ≡ true → ltb_ℤ (pos 0) r' ≡ false)
    → ltb_ℤ (pos 0) (difference_or a b r) ≡ true
    → ltb_ℤ (pos 0) (difference_or b a r') ≡ false
unfolding difference_or ◌-ℤ◌
difference_one_way a b r r' h e = ground (arith, h, e)

infix 50 ◌<ℤ◌
abbrev ◌<ℤ◌ : ℤ → ℤ → Type 0
a <ℤ b = pos_part a + neg_part b < pos_part b + neg_part a

difference_not_after :
    (a b r : ℤ)
    → ltb_ℤ (pos 0) (difference_or a b r) ≡ false
    → a <ℤ b ⊎ ((a ≡ b) × (ltb_ℤ (pos 0) r ≡ false))
unfolding difference_or ◌-ℤ◌
difference_not_after a b r e = ground (arith, eq_of_parts a b, e)

difference_of_lt : (a b r : ℤ) → a <ℤ b → ltb_ℤ (pos 0) (difference_or a b r) ≡ false
unfolding difference_or ◌-ℤ◌
difference_of_lt a b r h = ground (arith, h)

difference_of_same :
    (a r : ℤ) → ltb_ℤ (pos 0) r ≡ false → ltb_ℤ (pos 0) (difference_or a a r) ≡ false
unfolding difference_or ◌-ℤ◌
difference_of_same a r h = ground (arith, h)

difference_transitive :
    (a b c r s t : ℤ)
    → (ltb_ℤ (pos 0) r ≡ false → ltb_ℤ (pos 0) s ≡ false → ltb_ℤ (pos 0) t ≡ false)
    → ltb_ℤ (pos 0) (difference_or a b r) ≡ false
    → ltb_ℤ (pos 0) (difference_or b c s) ≡ false
    → ltb_ℤ (pos 0) (difference_or a c t) ≡ false
difference_transitive a b c r s t h e e' = elim (difference_not_after a b r e) [
  | inl below ↦ elim (difference_not_after b c s e') [
    | inl below' ↦ difference_of_lt a c t (omega (arith, below, below'))
    | inr (same, _) ↦ difference_of_lt a c t (subst (λ x. a <ℤ x) same below)
  ]
  | inr (same, rest) ↦ elim (difference_not_after b c s e') [
    | inl below' ↦ difference_of_lt a c t (subst (λ x. x <ℤ c) (sym same) below')
    | inr (same', rest') ↦
        subst (λ x. ltb_ℤ (pos 0) (difference_or a x t) ≡ false) (same ∙ same')
          (difference_of_same a t (h rest rest'))
  ]
]

-- Comparing by a number first.
difference-IsOrder :
    {A : Type 0} (key : A → ℤ) (rest : A → A → ℤ)
    → IsOrder rest
    → IsOrder (λ a b. difference_or (key a) (key b) (rest a b))
difference-IsOrder key rest order = record {
  one_way = λ a b. difference_one_way (key a) (key b) (rest a b) (rest b a) (order.one_way a b);
  transitive = λ a b c.
      difference_transitive (key a) (key b) (key c) (rest a b) (rest b c) (rest a c)
        (order.transitive a b c);
}

module _ (d : Double) (rt : Runtime d) (collation : IsOrder rt.locale_compare) where
  hash-IsOrder : IsOrder (λ (a b : SurveyTallyVote d). rt.locale_compare a.tx_hash b.tx_hash)
  hash-IsOrder = record {
    one_way = λ a b. collation.one_way a.tx_hash b.tx_hash;
    transitive = λ a b c. collation.transitive a.tx_hash b.tx_hash c.tx_hash;
  }

  pub compare_votes-IsOrder : IsOrder (compare_votes d rt)
  unfolding compare_votes
  compare_votes-IsOrder =
      difference-IsOrder (λ v. v.absolute_slot or_else negsuc 0) _
        (difference-IsOrder (λ v. v.tx_block_index or_else negsuc 0) _
          (difference-IsOrder (λ v. v.metadata_position or_else pos 0) _
            (difference-IsOrder (λ v. v.voted_at or_else pos 0) _ hash-IsOrder)))
