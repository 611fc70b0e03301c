-- ===== src/Ledger/Percent.antt =====
-- Shares of a whole in truncated hundredths of a percent.
use native.Mathlib.Nat.{div-add-mod, mod-lt, lt_of_mul-lt-mul_left}
use cgov_api.Prelude.{
  ℕ, zero, suc, ◌+◌, ◌*◌, ◌/◌, ◌≤◌, ◌<◌, ◌≡◌, refl, ◌⊎◌, inl, inr, Option, none, some, arith,
}
use cgov_api.Prelude.Int.{pos}
use cgov_api.Ledger.{pct2}

below : (d u v : ℕ) → d * u < d * v → u < v
below d u v h = lt_of_mul-lt-mul_left d h

-- `x` is the truncated share of `a` in `d`, in hundredths of a percent.
abbrev IsShare : ℕ → ℕ → ℕ → Type 0
IsShare d a x = (d * x ≤ a * 10000) × (a * 10000 < d * x + d)

div-IsShare : (a d : ℕ) → 0 < d → IsShare d a (a * 10000 / d)
div-IsShare a d h = omega (arith, div-add-mod (a * 10000) d, mod-lt (a * 10000) h)

shares_two :
    (d a b x y : ℕ)
    → 0 < d
    → a + b ≡ d
    → IsShare d a x
    → IsShare d b y
    → (x + y ≤ 10000) × (10000 ≤ x + y + 1)
shares_two d a b x y h e p q = (
  omega (arith, below d (x + y) (10001) (omega arith)),
  omega (arith, below d (10000) (x + y + 2) (omega arith)),
)

shares_three :
    (d a b c x y z : ℕ)
    → 0 < d
    → a + b + c ≡ d
    → IsShare d a x
    → IsShare d b y
    → IsShare d c z
    → (x + y + z ≤ 10000) × (10000 ≤ x + y + z + 2)
shares_three d a b c x y z h e p q r = (
  omega (arith, below d (x + y + z) (10001) (omega arith)),
  omega (arith, below d (10000) (x + y + z + 3) (omega arith)),
)

pub pct2_pos : (n d : ℕ) → 0 < d → pct2 n (pos d) ≡ some (n * 10000 / d)
unfolding pct2
pct2_pos n d h = ground arith

-- Two parts of a whole share it, up to one hundredth; of an empty whole there is no share.
abbrev pub ShareWhole : Option ℕ → Option ℕ → ℕ → Type 0
ShareWhole p q d =
    ((d ≡ 0) × (p ≡ none) × (q ≡ none))
    ⊎ ((x : ℕ) × (y : ℕ) × (p ≡ some x) × (q ≡ some y) × (x + y ≤ 10000) × (10000 ≤ x + y + 1))

pub pct2-ShareWhole : (a b d : ℕ) → a + b ≡ d → ShareWhole (pct2 a (pos d)) (pct2 b (pos d)) d
unfolding pct2
pct2-ShareWhole a b zero e = inl (refl, refl, refl)
pct2-ShareWhole a b (suc d) e =
    let (low, high) =
      shares_two (suc d) a b _ _ (omega arith) e (div-IsShare a (suc d) (omega arith))
        (div-IsShare b (suc d) (omega arith)) in
    inr (a * 10000 / suc d, b * 10000 / suc d, ground arith, ground arith, low, high)

-- The same of three parts, up to two hundredths.
abbrev pub ShareThree : Option ℕ → Option ℕ → Option ℕ → ℕ → Type 0
ShareThree p q r d =
    ((d ≡ 0) × (p ≡ none) × (q ≡ none) × (r ≡ none))
    ⊎ ((x : ℕ) × (y : ℕ) × (z : ℕ) × (p ≡ some x)
        × (q ≡ some y)
        × (r ≡ some z)
        × (x + y + z ≤ 10000)
        × (10000 ≤ x + y + z + 2))

pub pct2-ShareThree :
    (a b c d : ℕ) → a + b + c ≡ d → ShareThree (pct2 a (pos d)) (pct2 b (pos d)) (pct2 c (pos d)) d
unfolding pct2
pct2-ShareThree a b c zero e = inl (refl, refl, refl, refl)
pct2-ShareThree a b c (suc d) e =
    let (low, high) =
      shares_three (suc d) a b c _ _ _ (omega arith) e (div-IsShare a (suc d) (omega arith))
        (div-IsShare b (suc d) (omega arith)) (div-IsShare c (suc d) (omega arith)) in
    inr (
      a * 10000 / suc d,
      b * 10000 / suc d,
      c * 10000 / suc d,
      ground arith,
      ground arith,
      ground arith,
      low,
      high,
    )
