-- ===== src/Status/Withdrawal.antt =====
-- The amount of a treasury withdrawal, from src/services/ingestion/proposalStatus.policy.ts.
-- A value of unknown type is a `JsValue`. The `trim` of the JavaScript library is a parameter.
pub mod Nested
mod Tests
use Prim.Native.Char.{code}
use Prim.Native.String.{String}
use package.text.Mathlib.Text.{◌==◌ as str_eq}
use cgov_api.Prelude.{
  [], ℕ, ◌+◌, ◌-◌, ◌*◌, Bool, true, false, Option, none, some, List, ◌∷◌, ◌++◌, leb, ◌&&◌,
  if◌then◌else◌,
}
use cgov_api.Json.{JsValue, null, number, big, str, array, object, JsItems, nil, item, get_field}
use cgov_api.Prelude.Int.{ℤ, pos, negsuc, ◌+ℤ◌, ltb_ℤ}

abbrev codes : String → List ℕ
codes String.[] = []
codes (String.◌∷◌ c s) = code c ∷ codes s

is_digit : ℕ → Bool
is_digit c = leb b'0' c && leb c b'9'

all_digits : List ℕ → Bool
unfolding is_digit
all_digits [] = true
all_digits (c ∷ cs) = is_digit c && all_digits cs

-- `/^\d+$/.test(text)`.
is_decimal : List ℕ → Bool
unfolding all_digits
is_decimal [] = false
is_decimal (c ∷ cs) = all_digits (c ∷ cs)

-- `BigInt(text)`, on a decimal text.
decimal_from : ℕ → List ℕ → ℕ
decimal_from acc [] = acc
decimal_from acc (c ∷ cs) = decimal_from (acc * 10 + (c - b'0')) cs

pub is_text : String → JsValue → Bool
is_text s (str t) = str_eq t s
is_text s _ = false

is_string : JsValue → Bool
is_string (str _) = true
is_string _ = false

-- `value != null && typeof value === "object"`.
is_object : JsValue → Bool
is_object (array _) = true
is_object (object _) = true
is_object _ = false

pub is_koios_treasury_recipient : JsValue → Bool
unfolding get_field is_string is_object
is_koios_treasury_recipient (object fs) =
    is_string (get_field "network" fs) && is_object (get_field "credential" fs)
is_koios_treasury_recipient _ = false

pub record ProposalLike : Type 0 where
  pub proposal_type : JsValue
  pub withdrawal : JsValue
  -- `proposal_description?.contents`
  pub contents : JsValue

-- `w && typeof w === "object" ? w.amount : null`
amount_field : JsValue → JsValue
unfolding get_field
amount_field (object fs) = get_field "amount" fs
amount_field _ = null

sum_from : ℤ → List ℤ → ℤ
sum_from sum [] = sum
sum_from sum (z ∷ zs) = sum_from (sum +ℤ z) zs

pub nested_total : List ℤ → Option ℤ
unfolding sum_from
nested_total [] = none
nested_total (z ∷ zs) = some (sum_from (pos 0) (z ∷ zs))

module _ (trim : String → String) where
  pub parse_lovelace_unknown : JsValue → Option ℤ
  unfolding is_decimal decimal_from
  parse_lovelace_unknown (big z) = some z
  parse_lovelace_unknown (number (pos n)) = some (pos n)
  parse_lovelace_unknown (number (negsuc n)) = none
  parse_lovelace_unknown (str s) =
      let trimmed = codes (trim s) in
      if is_decimal trimmed then some (pos (decimal_from 0 trimmed)) else none
  parse_lovelace_unknown _ = none

  -- `[recipient, amount]` pushes its amount.
  pub push_pair : JsItems → List ℤ → List ℤ
  unfolding is_koios_treasury_recipient
  push_pair (item recipient (item amount nil)) amounts =
      elim (is_koios_treasury_recipient recipient) [
        | true ↦ elim (parse_lovelace_unknown amount) [
          | some z ↦ amounts ++ z ∷ []
          | none ↦ amounts
        ]
        | false ↦ amounts
      ]
  push_pair _ amounts = amounts

  mutual
    unfolding push_pair

    pub collect_treasury_withdrawal_amounts : JsValue → List ℤ → List ℤ
    collect_treasury_withdrawal_amounts (array xs) amounts = collect_items xs (push_pair xs amounts)
    collect_treasury_withdrawal_amounts _ amounts = amounts

    pub collect_items : JsItems → List ℤ → List ℤ
    collect_items nil amounts = amounts
    collect_items (item x xs) amounts =
        collect_items xs (collect_treasury_withdrawal_amounts x amounts)

  total_withdrawal : JsItems → ℤ → ℤ
  unfolding amount_field parse_lovelace_unknown
  total_withdrawal nil total = total
  total_withdrawal (item w ws) total =
      total_withdrawal ws
        (elim (parse_lovelace_unknown (amount_field w)) [ some z ↦ total +ℤ z | none ↦ total ])

  pub withdrawal_total : JsValue → ℤ
  unfolding total_withdrawal
  withdrawal_total (array ws) = total_withdrawal ws (pos 0)
  withdrawal_total _ = pos 0

  pub extract_treasury_withdrawal_amount : ProposalLike → Option ℤ
  unfolding withdrawal_total nested_total collect_treasury_withdrawal_amounts is_text
  extract_treasury_withdrawal_amount p =
      if is_text "TreasuryWithdrawals" p.proposal_type
      then (if ltb_ℤ (pos 0) (withdrawal_total p.withdrawal)
          then some (withdrawal_total p.withdrawal)
          else nested_total (collect_treasury_withdrawal_amounts p.contents []))
      else none
