-- ===== src/Cache.antt =====
-- src/services/cache.ts: the responses of the development endpoints, kept in memory until they
-- expire. The `Map` is a list of its entries in the order of insertion, as its loops visit them. Each
-- reading of the clock is an argument.
pub mod Lookup
pub mod Lifetime
mod Tests
use text.Mathlib.Text.{◌==◌ as str_eq, starts_with}
use cgov_api.Prelude.{
  [], ℕ, ◌+◌, not, Option, none, some, String, List, ◌∷◌, if◌then◌else◌, filter, length, ltb,
}

abbrev pub max_entries : ℕ
max_entries = 500

pub record Entry (A : Type 0) : Type 0 where
  pub data_value : A
  pub expires_at : ℕ

module _ {A : Type 0} where
  pub lookup : String → List (String × Entry A) → Option (Entry A)
  lookup key [] = none
  lookup key ((k, v) ∷ store) = if str_eq k key then some v else lookup key store

  -- An entry that is set again stays where it is.
  pub put : String → Entry A → List (String × Entry A) → List (String × Entry A)
  put key entry [] = (key, entry) ∷ []
  put key entry ((k, v) ∷ store) =
      if str_eq k key then (k, entry) ∷ store else (k, v) ∷ put key entry store

  pub delete : String → List (String × Entry A) → List (String × Entry A)
  delete key store = filter (λ e. not (str_eq e.0 key)) store

  pub take_entry :
      ℕ → String → List (String × Entry A) → Option (Entry A) → List (String × Entry A) × Option A
  unfolding delete
  take_entry now key store none = (store, none)
  take_entry now key store (some entry) =
      if ltb entry.expires_at now then (delete key store, none) else (store, some entry.data_value)

  pub cache_get : ℕ → String → List (String × Entry A) → List (String × Entry A) × Option A
  unfolding take_entry lookup
  cache_get now key store = take_entry now key store (lookup key store)

  pub delete_expired : ℕ → List (String × Entry A) → List (String × Entry A)
  delete_expired now store = filter (λ e. not (ltb e.1.expires_at now)) store

  -- `now` is read where the entry is set, `later` where the expired ones are deleted.
  pub cache_set : ℕ → ℕ → String → A → ℕ → List (String × Entry A) → List (String × Entry A)
  unfolding put delete_expired
  cache_set now later key data_value ttl_ms store =
      let stored = put key (record { data_value = data_value; expires_at = now + ttl_ms }) store in
      if ltb max_entries (length stored) then delete_expired later stored else stored

  pub cache_invalidate_prefix : String → List (String × Entry A) → List (String × Entry A) × ℕ
  cache_invalidate_prefix prefix [] = ([], 0)
  cache_invalidate_prefix prefix ((k, v) ∷ store) =
      let (kept, count) = cache_invalidate_prefix prefix store in
      if starts_with k prefix then (kept, count + 1) else ((k, v) ∷ kept, count)
