-- ===== src/SyncUtils/Tests.antt =====
-- Five items in chunks of two.
use cgov_api.Prelude.{[], ℕ, ◌+◌, ◌*◌, ◌<◌, ◌≡◌, refl, List, ◌∷◌, arith, length, All}
use cgov_api.SyncUtils.{chunk_array, chunks_from, slice}
use cgov_api.SyncUtils.Chunks.{concat, Fits, chunk_array_lem}

abbrev five : List ℕ
five = 1 ∷ 2 ∷ 3 ∷ 4 ∷ 5 ∷ []

three_chunks : chunk_array five 2 ≡ (1 ∷ 2 ∷ []) ∷ (3 ∷ 4 ∷ []) ∷ (5 ∷ []) ∷ []
unfolding chunk_array chunks_from slice
three_chunks = refl

chunk_array_lem_example :
    let chunks = chunk_array five 2 in
    (concat chunks ≡ five) × All (Fits 2) chunks × (length chunks * 2 < length five + 2)
chunk_array_lem_example = chunk_array_lem five 2 (omega arith)
