-- ===== src/Cache/Tests.antt =====
-- A cache of two responses, of which one is set again.
use cgov_api.Prelude.{
  [], if◌then◌else◌, ◌+◌, eq_iff, ℕ, ◌≡◌, refl, some, none, String, List, ◌∷◌, arith, length,
}
use cgov_api.Cache.{
  starts_with, delete, take_entry, Entry, lookup, cache_get, cache_set, cache_invalidate_prefix,
}
use cgov_api.Cache.Lookup.{invalidate_prefix_lem}
use cgov_api.Cache.Lifetime.{
  Call, getting, setting, invalidating, Spares, call_all, cached_value_lasts,
}

abbrev cached : List (String × Entry ℕ)
cached =
    ("dev:health", record { data_value = 1; expires_at = 10 })
    ∷ ("data:votes", record { data_value = 2; expires_at = 20 })
    ∷ []

expired_is_dropped :
    cache_get 11 "dev:health" cached
    ≡ (("data:votes", record { data_value = 2; expires_at = 20 }) ∷ [], none)
unfolding cache_get take_entry delete lookup
expired_is_dropped = refl

invalidate_prefix_lem_example :
    let (kept, count) = cache_invalidate_prefix "dev:" cached in
    (length kept + count ≡ length cached)
    × (lookup "data:votes" kept
        ≡ (if starts_with "data:votes" "dev:" then none else lookup "data:votes" cached))
invalidate_prefix_lem_example = invalidate_prefix_lem "dev:" cached "data:votes"

abbrev calls : List (Call ℕ)
calls = getting 12 "dev:stars" ∷ setting 13 13 "dev:repos" 4 100 ∷ invalidating "data:" ∷ []

repos_spared : Spares {A = ℕ} "dev:stars" 20 (setting 13 13 "dev:repos" 4 100)
repos_spared = (omega arith, λ e. ground (arith, (eq_iff "dev:repos" "dev:stars").1 e))

cached_value_lasts_example :
    (cache_get 20 "dev:stars" (call_all calls (cache_set 10 10 "dev:stars" 3 10 cached))).1 ≡ some 3
cached_value_lasts_example =
    cached_value_lasts 10 10 "dev:stars" 3 10 cached calls 20 (omega arith)
      (omega arith, (repos_spared, (refl, tt))) (omega arith)
