-- ===== src/SyncUtils/Chunks.antt =====
-- The chunks of an array.
use cgov_api.Prelude.{
  [], ℕ, zero, suc, ◌+◌, ◌*◌, ◌≤◌, ◌<◌, ◌≡◌, ◌∙◌, ap, refl, sym, List, ◌∷◌, ◌++◌, ltb, length, inl,
  inr, Bool-cases, arith, All,
}
use cgov_api.SyncUtils.{take, drop, slice, chunks_from, chunk_array}

module _ {A : Type 0} where
  abbrev pub concat : List (List A) → List A
  concat [] = []
  concat (xs ∷ xss) = xs ++ concat xss

  drop-past : (i : ℕ) (xs : List A) → length xs ≤ i → drop i xs ≡ []
  drop-past zero [] h = refl
  drop-past zero (x ∷ xs) h = absurd (omega (arith, h))
  drop-past (suc i) [] h = refl
  drop-past (suc i) (x ∷ xs) h = drop-past i xs (omega (arith, h))

  drop-none : (n : ℕ) → drop {A = A} n [] ≡ []
  drop-none zero = refl
  drop-none (suc n) = refl

  take-drop : (n : ℕ) (xs : List A) → take n xs ++ drop n xs ≡ xs
  take-drop zero xs = refl
  take-drop (suc n) [] = refl
  take-drop (suc n) (x ∷ xs) = ap (λ l. x ∷ l) (take-drop n xs)

  drop-add : (i n : ℕ) (xs : List A) → drop (i + n) xs ≡ drop n (drop i xs)
  drop-add zero n xs = ap (λ k. drop k xs) (omega arith)
  drop-add (suc i) n [] = drop-none (suc i + n) ∙ sym (drop-none n)
  drop-add (suc i) n (x ∷ xs) = ap (λ k. drop k (x ∷ xs)) (suc_add i n) ∙ drop-add i n xs
    where
      suc_add : (i n : ℕ) → suc i + n ≡ suc (i + n)
      suc_add i n = omega arith

  slice-drop : (items : List A) (i n : ℕ) → slice items i n ++ drop (i + n) items ≡ drop i items
  unfolding slice
  slice-drop items i n =
      ap (λ l. take n (drop i items) ++ l) (drop-add i n items) ∙ take-drop n (drop i items)

  abbrev pub Fits : ℕ → List A → Type 0
  Fits chunk_size chunk = (1 ≤ length chunk) × (length chunk ≤ chunk_size)

  length-take : (n : ℕ) (xs : List A) → length (take n xs) ≤ n
  length-take zero xs = omega arith
  length-take (suc n) [] = omega arith
  length-take (suc n) (x ∷ xs) = omega (arith, length-take n xs)

  slice-Fits : (n i : ℕ) (items : List A) → 1 ≤ n → i < length items → Fits n (slice items i n)
  unfolding slice
  slice-Fits n i items some_room inside =
      (nonempty n i items some_room inside, length-take n (drop i items))
    where
      nonempty :
          (n i : ℕ) (items : List A) → 1 ≤ n → i < length items → 1 ≤ length (take n (drop i items))
      nonempty zero i items h inside = absurd (omega (arith, h))
      nonempty (suc n) i [] h inside = absurd (omega (arith, inside))
      nonempty (suc n) zero (x ∷ xs) h inside = omega arith
      nonempty (suc n) (suc i) (x ∷ xs) h inside = nonempty (suc n) i xs h (omega (arith, inside))

  chunks_from_lem :
      (fuel : ℕ) (items : List A) (n i : ℕ)
      → 1 ≤ n
      → length items ≤ fuel + i
      → i < length items + n
      → let chunks = chunks_from fuel items n i in
        (concat chunks ≡ drop i items)
        × All (Fits n) chunks
        × (length chunks * n + i < length items + n)
  unfolding chunks_from
  chunks_from_lem zero items n i some_room enough below =
      (sym (drop-past i items (omega (arith, enough))), tt, omega (arith, below))
  chunks_from_lem (suc fuel) items n i some_room enough below =
      elim (Bool-cases (ltb i (length items))) [
        | inr ended ↦
            rw ended (sym (drop-past i items (ground (arith, ended))), tt, omega (arith, below))
        | inl inside ↦
            let (same, fit, few) =
              chunks_from_lem fuel items n (i + n) some_room (omega (arith, enough, some_room))
                (ground (arith, inside)) in
            rw inside (
              ap (λ l. slice items i n ++ l) same ∙ slice-drop items i n,
              (slice-Fits n i items some_room (ground (arith, inside)), fit),
              omega (arith, few),
            )
      ]

  -- For a size of at least 1, the chunks hold the items in their order, each chunk at least one and no
  -- more than the size, and there are no more chunks than are needed for that.
  pub chunk_array_lem :
      (items : List A) (chunk_size : ℕ)
      → 1 ≤ chunk_size
      → let chunks = chunk_array items chunk_size in
        (concat chunks ≡ items)
        × All (Fits chunk_size) chunks
        × (length chunks * chunk_size < length items + chunk_size)
  unfolding chunk_array
  chunk_array_lem items chunk_size some_room =
      let (same, fit, few) =
        chunks_from_lem (length items) items chunk_size 0 some_room (omega arith)
          (omega (arith, some_room)) in
      (same, fit, omega (arith, few))
