-- ===== src/Cache/Lifetime.antt =====
-- How long an entry of the cache is served.
use text.Mathlib.Text.{◌==◌ as str_eq, starts_with}
use cgov_api.Prelude.{
  [], ℕ, ◌+◌, ◌≤◌, ◌≡◌, ◌≢◌, ◌∙◌, inl, inr, refl, sym, ap, subst, true, false, not, Option, none,
  some, String, List, ◌∷◌, length, ltb, Bool-cases, arith, All,
}
use cgov_api.Cache.{
  max_entries, Entry, lookup, put, delete, take_entry, cache_get, delete_expired, cache_set,
  cache_invalidate_prefix,
}
use cgov_api.Cache.Lookup.{
  same, lookup-put_same, lookup-put_other, lookup-filter, invalidate_prefix_lem,
}

-- A call of the cache, with the readings of the clock that it takes.
pub data Call (A : Type 0) : Type 0 where
  getting : (now : ℕ) (key : String) → Call A
  setting : (now later : ℕ) (key : String) (data_value : A) (ttl_ms : ℕ) → Call A
  invalidating : (prefix : String) → Call A

module _ {A : Type 0} where
  pub call : Call A → List (String × Entry A) → List (String × Entry A)
  unfolding cache_get cache_set cache_invalidate_prefix
  call (getting now key) store = (cache_get now key store).0
  call (setting now later key data_value ttl_ms) store =
      cache_set now later key data_value ttl_ms store
  call (invalidating prefix) store = (cache_invalidate_prefix prefix store).0

  pub call_all : List (Call A) → List (String × Entry A) → List (String × Entry A)
  unfolding call
  call_all [] store = store
  call_all (c ∷ cs) store = call_all cs (call c store)

  -- The call reads no time after `end`, does not set `key`, and invalidates no prefix of it.
  abbrev pub Spares : String → ℕ → Call A → Type 0
  Spares key end (getting now k) = now ≤ end
  Spares key end (setting now later k data_value ttl_ms) = (later ≤ end) × (k ≢ key)
  Spares key end (invalidating prefix) = starts_with key prefix ≡ false

  lookup-delete_expired :
      (later : ℕ) (key : String) (entry : Entry A) (store : List (String × Entry A))
      → later ≤ entry.expires_at
      → lookup key store ≡ some entry
      → lookup key (delete_expired later store) ≡ some entry
  unfolding delete_expired
  lookup-delete_expired later key entry store le =
      lookup-filter (λ e. not (ltb e.1.expires_at later)) key entry (λ k e. ground (arith, le))
        store

  get-keeps :
      (now : ℕ) (k key : String) (entry : Entry A) (store : List (String × Entry A))
      → now ≤ entry.expires_at
      → lookup key store ≡ some entry
      → lookup key (cache_get now k store).0 ≡ some entry
  unfolding cache_get take_entry delete
  get-keeps now k key entry store le found = of_entry (lookup k store) refl
    where
      of_entry :
          (o : Option (Entry A))
          → lookup k store ≡ o
          → lookup key (take_entry now k store o).0 ≡ some entry
      of_entry none e = found
      of_entry (some other) e = elim (Bool-cases (ltb other.expires_at now)) [
        | inr fresh ↦ rw fresh found
        | inl expired ↦ elim (Bool-cases (str_eq key k)) [
          | inr ne ↦ rw expired (
              lookup-filter (λ x. not (str_eq x.0 k)) key entry
                (λ j j_key. subst (λ w. not (str_eq w k) ≡ true) (sym j_key) (rw ne refl)) store
                found)
          | inl eq ↦
              let read : some other ≡ some entry =
                sym e ∙ ap (λ w. lookup w store) (sym (same key k eq)) ∙ found in
              absurd (ground (arith, expired, le, read))
        ]
      ]

  set-keeps :
      (now later : ℕ) (k : String) (data_value : A) (ttl_ms : ℕ) (key : String) (entry : Entry A)
      (store : List (String × Entry A))
      → later ≤ entry.expires_at
      → lookup key (put k (record { data_value = data_value; expires_at = now + ttl_ms }) store)
        ≡ some entry
      → lookup key (cache_set now later k data_value ttl_ms store) ≡ some entry
  unfolding cache_set
  set-keeps now later k data_value ttl_ms key entry store le found =
      let stored = put k (record { data_value = data_value; expires_at = now + ttl_ms }) store in
      elim (Bool-cases (ltb max_entries (length stored))) [
        | inl full ↦ rw full (lookup-delete_expired later key entry stored le found)
        | inr room ↦ rw room found
      ]

  call-keeps :
      (c : Call A) (key : String) (entry : Entry A) (store : List (String × Entry A))
      → Spares key entry.expires_at c
      → lookup key store ≡ some entry
      → lookup key (call c store) ≡ some entry
  unfolding call
  call-keeps (getting now k) key entry store le found = get-keeps now k key entry store le found
  call-keeps (setting now later k data_value ttl_ms) key entry store (le, ne) found =
      set-keeps now later k data_value ttl_ms key entry store le
        (lookup-put_other k key _ store ne ∙ found)
  call-keeps (invalidating prefix) key entry store other found =
      (invalidate_prefix_lem prefix store key).1 ∙ rw other found

  call_all-keeps :
      (cs : List (Call A)) (key : String) (entry : Entry A) (store : List (String × Entry A))
      → All (Spares key entry.expires_at) cs
      → lookup key store ≡ some entry
      → lookup key (call_all cs store) ≡ some entry
  unfolding call_all
  call_all-keeps [] key entry store h found = found
  call_all-keeps (c ∷ cs) key entry store h found =
      call_all-keeps cs key entry (call c store) h.1 (call-keeps c key entry store h.0 found)

  -- A value that was set is served up to the end of its lifetime, whatever calls come between that set
  -- another key, invalidate no prefix of its key, and read the clock no later than that.
  pub cached_value_lasts :
      (now later : ℕ) (key : String) (data_value : A) (ttl_ms : ℕ) (store : List (String × Entry A))
      (cs : List (Call A)) (t : ℕ)
      → later ≤ now + ttl_ms
      → All (Spares key (now + ttl_ms)) cs
      → t ≤ now + ttl_ms
      → (cache_get t key (call_all cs (cache_set now later key data_value ttl_ms store))).1
        ≡ some data_value
  unfolding cache_get take_entry
  cached_value_lasts now later key data_value ttl_ms store cs t le spared in_time =
      let entry : Entry A = record { data_value = data_value; expires_at = now + ttl_ms } in
      let found =
        call_all-keeps cs key entry (cache_set now later key data_value ttl_ms store) spared (
          set-keeps now later key data_value ttl_ms key entry store le
            (lookup-put_same key entry store)) in
      let fresh : ltb (now + ttl_ms) t ≡ false = ground (arith, in_time) in rw (found, fresh) refl
