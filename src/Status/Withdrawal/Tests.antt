-- ===== src/Status/Withdrawal/Tests.antt =====
-- The amount of a treasury withdrawal on small values.
use cgov_api.Prelude.{[], ◌≡◌, refl, false, true, some, String, ◌∷◌, ◌++◌}
use cgov_api.Prelude.Int.{pos, ltb_ℤ, ◌+ℤ◌}
use cgov_api.Json.{JsValue, undefined, number, str, array, object, JsItems, nil, item, end, field}
use cgov_api.Status.Withdrawal.{
  ProposalLike, is_text, withdrawal_total, collect_treasury_withdrawal_amounts,
  extract_treasury_withdrawal_amount,
}
use cgov_api.Status.Withdrawal.Nested.{arrays, amounts_of, collect_lem}

abbrev same : String → String
same s = s

-- `[{ network, credential }, amount]`
abbrev pair : JsValue → JsItems
pair amount =
    item (object (field "network" (str "Mainnet") (field "credential" (object end) end)))
      (item amount nil)

abbrev two_pairs : JsValue
two_pairs =
    array
      (item (array (pair (number (pos 7)))) (item (array (item (array (pair (str "35"))) nil)) nil))

collect_lem_example :
    collect_treasury_withdrawal_amounts same two_pairs (pos 1 ∷ [])
    ≡ (pos 1 ∷ []) ++ amounts_of same (arrays two_pairs)
collect_lem_example = collect_lem same two_pairs (pos 1 ∷ [])

abbrev withdrawal : ProposalLike
withdrawal = record {
  proposal_type = str "TreasuryWithdrawals";
  withdrawal = undefined;
  contents = two_pairs;
}

is_withdrawal : is_text "TreasuryWithdrawals" withdrawal.proposal_type ≡ true
unfolding is_text
is_withdrawal = refl

no_list : ltb_ℤ (pos 0) (withdrawal_total same withdrawal.withdrawal) ≡ false
unfolding withdrawal_total
no_list = refl

sum_of_pairs : extract_treasury_withdrawal_amount same withdrawal ≡ some (pos 42)
unfolding extract_treasury_withdrawal_amount ◌+ℤ◌
sum_of_pairs = refl
