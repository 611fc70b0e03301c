-- ===== src/Status/Withdrawal/Nested.antt =====
-- The nested search for withdrawal amounts, against the list of all arrays inside a value.
use Prim.Native.String.{String}
use mathlib.Core.List.{append-nil, append_assoc}
use cgov_api.Prelude.{
  [], none, some, if◌then◌else◌, ◌&&◌, some, Bool, ◌≡◌, refl, sym, ◌∙◌, true, false, List, ◌∷◌,
  ◌++◌, arith,
}
use cgov_api.Prelude.Int.{ℤ, pos, ltb_ℤ}
use cgov_api.Json.{str, get_field, object, JsValue, undefined, array, JsItems, nil, item}
use cgov_api.Status.Withdrawal.{
  is_object, is_string, parse_lovelace_unknown, is_koios_treasury_recipient, push_pair,
  collect_treasury_withdrawal_amounts, collect_items, is_text, withdrawal_total, nested_total,
  ProposalLike, extract_treasury_withdrawal_amount,
}

-- Every array that is reached from a value through arrays alone, itself included, an outer one before
-- those inside it. What an object holds is not reached.
mutual
  pub arrays : JsValue → List JsItems
  arrays (array xs) = xs ∷ arrays_inside xs
  arrays _ = []

  pub arrays_inside : JsItems → List JsItems
  arrays_inside nil = []
  arrays_inside (item x xs) = arrays x ++ arrays_inside xs

-- An object whose network is a text and whose credential is an object or an array.
pub names_recipient : JsValue → Bool
names_recipient (object fs) = elim (get_field "network" fs) [
  | str _ ↦ elim (get_field "credential" fs) [ object _ ↦ true | array _ ↦ true | _ ↦ false ]
  | _ ↦ false
]
names_recipient _ = false

module _ (trim : String → String) where
  abbrev read_amount : JsValue → List ℤ
  read_amount v = elim (parse_lovelace_unknown trim v) [ some z ↦ z ∷ [] | none ↦ [] ]

  -- The amount that an array of two entries stands for, if the first is a recipient and the second is
  -- read as an amount.
  pub pair_amount : JsItems → List ℤ
  unfolding names_recipient
  pair_amount (item first (item second nil)) =
      if names_recipient first then read_amount second else []
  pair_amount _ = []

  names_recipient_lem : (v : JsValue) → is_koios_treasury_recipient v ≡ names_recipient v
  unfolding is_koios_treasury_recipient is_string is_object names_recipient
  names_recipient_lem (object fs) = of_fields (get_field "network" fs) (get_field "credential" fs)
    where
      of_fields :
          (network credential : JsValue)
          → is_string network && is_object credential ≡ (elim network [
            | str _ ↦ elim credential [ object _ ↦ true | array _ ↦ true | _ ↦ false ]
            | _ ↦ false
          ])
      of_fields (str t) (object fs) = refl
      of_fields (str t) (array xs) = refl
      of_fields (str t) _ = refl
      of_fields _ credential = refl
  names_recipient_lem _ = refl

  pub amounts_of : List JsItems → List ℤ
  amounts_of [] = []
  amounts_of (xs ∷ more) = pair_amount xs ++ amounts_of more

  push_pair-append :
      (xs : JsItems) (amounts : List ℤ) → push_pair trim xs amounts ≡ amounts ++ pair_amount xs
  unfolding push_pair pair_amount
  push_pair-append nil amounts = sym (append-nil amounts)
  push_pair-append (item r nil) amounts = sym (append-nil amounts)
  push_pair-append (item r (item a (item b xs))) amounts = sym (append-nil amounts)
  push_pair-append (item r (item a nil)) amounts =
      rw (sym (names_recipient_lem r)) (ground (arith, append-nil amounts))

  amounts_of-append :
      (xs ys : List JsItems) → amounts_of (xs ++ ys) ≡ amounts_of xs ++ amounts_of ys
  unfolding amounts_of
  amounts_of-append [] ys = refl
  amounts_of-append (x ∷ xs) ys = simp (amounts_of-append xs ys, append_assoc)

  mutual
    unfolding collect_treasury_withdrawal_amounts arrays amounts_of

    collect-arrays :
        (v : JsValue) (amounts : List ℤ)
        → collect_treasury_withdrawal_amounts trim v amounts ≡ amounts ++ amounts_of (arrays v)
    collect-arrays (array xs) amounts =
        collect_items-arrays xs (push_pair trim xs amounts)
        ∙ simp (push_pair-append xs amounts, append_assoc)
    collect-arrays undefined amounts = sym (append-nil amounts)
    collect-arrays _ amounts = sym (append-nil amounts)

    collect_items-arrays :
        (xs : JsItems) (amounts : List ℤ)
        → collect_items trim xs amounts ≡ amounts ++ amounts_of (arrays_inside xs)
    collect_items-arrays nil amounts = sym (append-nil amounts)
    collect_items-arrays (item x xs) amounts =
        collect_items-arrays xs (collect_treasury_withdrawal_amounts trim x amounts)
        ∙ simp (
          collect-arrays x amounts,
          amounts_of-append (arrays x) (arrays_inside xs),
          append_assoc,
        )

  -- The search appends, in order, the amount of every array, among those reached from the value through
  -- arrays alone, that has two entries, a recipient and what `parse_lovelace_unknown` reads as an amount;
  -- and nothing else.
  pub collect_lem :
      (v : JsValue) (amounts : List ℤ)
      → collect_treasury_withdrawal_amounts trim v amounts ≡ amounts ++ amounts_of (arrays v)
  collect_lem v amounts = collect-arrays v amounts

  -- Without a withdrawal list of positive total, a treasury withdrawal has the total of its nested
  -- pairs, and none if it has no such pair.
  pub extract_nested :
      (p : ProposalLike)
      → is_text "TreasuryWithdrawals" p.proposal_type ≡ true
      → ltb_ℤ (pos 0) (withdrawal_total trim p.withdrawal) ≡ false
      → extract_treasury_withdrawal_amount trim p ≡ nested_total (amounts_of (arrays p.contents))
  unfolding extract_treasury_withdrawal_amount
  extract_nested p typed small = rw (typed, small, collect_lem p.contents [])
