-- ===== src/Mapper/Numbers.antt =====
-- The floating-point numbers of JavaScript, which src/libs/proposalMapper.ts computes with: the
-- operations are a parameter, with the facts of IEEE 754 arithmetic that the theorems use. `Num` is
-- the finite doubles, and amounts are so small that no operation overflows; a quotient by 0 is
-- nowhere asked for.
use cgov_api.Prelude.{ℕ, ◌+◌, ◌^◌, ◌≤◌, ◌≡◌, Bool, true, String, if◌then◌else◌}
use cgov_api.Prelude.Int.{ℤ, pos, pos_part, neg_part, ◌+ℤ◌, ◌-ℤ◌, ltb_ℤ}

pub record Double : Type 1 where
  pub Num : Type 0
  -- `Number(n)`, also of a `bigint`; the nearest double.
  pub of_ℤ : ℤ → Num
  -- The literal of `n` hundredths, `0.67` for 67.
  pub of_hundredths : ℕ → Num
  pub add : Num → Num → Num
  pub sub : Num → Num → Num
  pub mul : Num → Num → Num
  pub div : Num → Num → Num
  -- `Math.max`, `Math.min`
  pub max : Num → Num → Num
  pub min : Num → Num → Num
  -- `x < y`, `x <= y`, `x === y`
  pub lt : Num → Num → Bool
  pub le : Num → Num → Bool
  pub eq : Num → Num → Bool
  -- `Number(x.toFixed(2))`
  pub to_fixed2 : Num → Num
  -- `Math.round(x).toString()` and `x.toString()`
  pub round_text : Num → String
  pub text : Num → String

-- Integers up to `Number.MAX_SAFE_INTEGER + 1` in size are doubles, so that their sums,
-- differences and comparisons are exact.
abbrev pub IsSafe : ℤ → Type 0
IsSafe z = pos_part z + neg_part z ≤ 2 ^ 53

module _ (d : Double) where
  open d use {Num, of_ℤ, add, sub, mul, div, max, min, lt, le, to_fixed2}

  pub record IsExact : Type 0 where
    pub add_exact :
        (a b : ℤ) → IsSafe a → IsSafe b → IsSafe (a +ℤ b) → add (of_ℤ a) (of_ℤ b) ≡ of_ℤ (a +ℤ b)
    pub sub_exact :
        (a b : ℤ) → IsSafe a → IsSafe b → IsSafe (a -ℤ b) → sub (of_ℤ a) (of_ℤ b) ≡ of_ℤ (a -ℤ b)
    pub max_exact :
        (a b : ℤ) → IsSafe a → IsSafe b → max (of_ℤ a) (of_ℤ b) ≡ of_ℤ (if ltb_ℤ a b then b else a)

  abbrev zero_num : Num
  zero_num = of_ℤ (pos 0)

  abbrev one_num : Num
  one_num = of_ℤ (pos 1)

  abbrev hundred : Num
  hundred = of_ℤ (pos 100)

  abbrev pub InRange : Num → Type 0
  InRange x = (le zero_num x ≡ true) × (le x hundred ≡ true)

  -- Rounding keeps the order, and 0, 1 and 100 are doubles.
  pub record IsOrdered : Type 0 where
    pub of_nonneg : (n : ℕ) → le zero_num (of_ℤ (pos n)) ≡ true
    pub zero_le_hundred : le zero_num hundred ≡ true
    pub add_nonneg :
        (x y : Num) → le zero_num x ≡ true → le zero_num y ≡ true → le zero_num (add x y) ≡ true
    pub le_add_right :
        (x y : Num) → le zero_num x ≡ true → le zero_num y ≡ true → le x (add x y) ≡ true
    pub le_add_left :
        (x y : Num) → le zero_num x ≡ true → le zero_num y ≡ true → le y (add x y) ≡ true
    pub max_nonneg : (x : Num) → le zero_num (max zero_num x) ≡ true
    pub div_nonneg :
        (x y : Num) → le zero_num x ≡ true → lt zero_num y ≡ true → le zero_num (div x y) ≡ true
    pub div_le_one :
        (x y : Num) → le x y ≡ true → lt zero_num y ≡ true → le (div x y) one_num ≡ true
    pub percent_nonneg : (x : Num) → le zero_num x ≡ true → le zero_num (mul x hundred) ≡ true
    pub percent_le : (x : Num) → le x one_num ≡ true → le (mul x hundred) hundred ≡ true
    pub fixed_InRange : (x : Num) → InRange x → InRange (to_fixed2 x)
