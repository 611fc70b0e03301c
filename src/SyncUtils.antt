-- ===== src/SyncUtils.antt =====
-- src/services/ingestion/sync-utils.ts: `chunkArray`, by which the ingestion services cut what they
-- send to Koios and to the database into batches. Its loop runs on fuel, one turn for each item, which
-- is enough where the size of a chunk is not 0.
pub mod Chunks
mod Tests
use cgov_api.Prelude.{[], ℕ, zero, suc, ◌+◌, List, ◌∷◌, if◌then◌else◌, ltb, length}

module _ {A : Type 0} where
  abbrev pub take : ℕ → List A → List A
  take zero xs = []
  take (suc n) [] = []
  take (suc n) (x ∷ xs) = x ∷ take n xs

  abbrev pub drop : ℕ → List A → List A
  drop zero xs = xs
  drop (suc n) [] = []
  drop (suc n) (x ∷ xs) = drop n xs

  -- `items.slice(i, i + chunk_size)`.
  pub slice : List A → ℕ → ℕ → List A
  slice items i chunk_size = take chunk_size (drop i items)

  pub chunks_from : ℕ → List A → ℕ → ℕ → List (List A)
  unfolding slice
  chunks_from zero items chunk_size i = []
  chunks_from (suc fuel) items chunk_size i =
      let rest = chunks_from fuel items chunk_size (i + chunk_size) in
      if ltb i (length items) then slice items i chunk_size ∷ rest else []

  pub chunk_array : List A → ℕ → List (List A)
  unfolding chunks_from
  chunk_array items chunk_size = chunks_from (length items) items chunk_size 0
