-- ===== src/Cache/Lookup.antt =====
-- What is found in the cache after an entry was set, entries were filtered, or a prefix was
-- invalidated.
use text.Mathlib.Text.{◌==◌ as str_eq, starts_with}
use cgov_api.Prelude.{
  [], ◌+◌, ◌≡◌, ◌≢◌, ◌∙◌, inl, inr, refl, if◌then◌else◌, sym, ap, subst, Bool, true, false, none,
  some, String, List, ◌∷◌, filter, length, Bool-cases, arith, eq_iff,
}
use cgov_api.Cache.{Entry, lookup, put, cache_invalidate_prefix}

pub different : (s t : String) → s ≢ t → str_eq s t ≡ false
different s t ne = ground (arith, eq_iff s t)

pub same : (s t : String) → str_eq s t ≡ true → s ≡ t
same s t e = (eq_iff s t).0 e

module _ {A : Type 0} where
  pub lookup-put_same :
      (key : String) (entry : Entry A) (store : List (String × Entry A))
      → lookup key (put key entry store) ≡ some entry
  unfolding lookup put
  lookup-put_same key entry [] = rw ((eq_iff key key).1 refl) refl
  lookup-put_same key entry ((k, v) ∷ store) = elim (Bool-cases (str_eq k key)) [
    | inl e ↦ rw (e, e) refl
    | inr e ↦ rw (e, e, lookup-put_same key entry store) refl
  ]

  pub lookup-put_other :
      (k key : String) (entry : Entry A) (store : List (String × Entry A))
      → k ≢ key
      → lookup key (put k entry store) ≡ lookup key store
  unfolding lookup put
  lookup-put_other k key entry [] ne = rw (different k key ne) refl
  lookup-put_other k key entry ((j, v) ∷ store) ne = elim (Bool-cases (str_eq j k)) [
    | inl e ↦ rw (e, different j key (λ j_key. ne (sym (same j k e) ∙ j_key))) refl
    | inr e ↦ rw (e, lookup-put_other k key entry store ne) refl
  ]

  -- A filter that keeps the first entry of a key keeps what is found under it.
  pub lookup-filter :
      (p : String × Entry A → Bool) (key : String) (entry : Entry A)
      → ((k : String) → k ≡ key → p (k, entry) ≡ true)
      → (store : List (String × Entry A)) → lookup key store ≡ some entry
      → lookup key (filter p store) ≡ some entry
  unfolding lookup
  lookup-filter p key entry keeps ((k, v) ∷ store) found = elim (Bool-cases (str_eq k key)) [
    | inl e ↦
        let v_entry : v ≡ entry = ground (arith, found, e) in
        let kept = subst (λ w. p (k, w) ≡ true) (sym v_entry) (keeps k (same k key e)) in
        rw (kept, e) (ap some v_entry)
    | inr e ↦
        let found_later : lookup key store ≡ some entry = ground (arith, found, e) in
        elim (Bool-cases (p (k, v))) [
          | inl kept ↦ rw (kept, e) (lookup-filter p key entry keeps store found_later)
          | inr dropped ↦ rw dropped (lookup-filter p key entry keeps store found_later)
        ]
  ]
  lookup-filter p key entry keeps [] found = found

  -- An invalidation counts the entries that it deletes; it leaves none under the prefix, and the others
  -- as they were.
  pub invalidate_prefix_lem :
      (prefix : String) (store : List (String × Entry A)) (key : String)
      → let (kept, count) = cache_invalidate_prefix prefix store in
        (length kept + count ≡ length store)
        × (lookup key kept ≡ (if starts_with key prefix then none else lookup key store))
  unfolding cache_invalidate_prefix lookup
  invalidate_prefix_lem prefix [] key = elim (Bool-cases (starts_with key prefix)) [
    | inl under ↦ rw under (refl, refl)
    | inr other ↦ rw other (refl, refl)
  ]
  invalidate_prefix_lem prefix ((k, v) ∷ store) key =
      let (counted, left) = invalidate_prefix_lem prefix store key in
      elim (Bool-cases (starts_with k prefix)) [
        | inl under ↦ elim (Bool-cases (str_eq k key)) [
          | inl e ↦
              let key_under = subst (λ w. starts_with w prefix ≡ true) (same k key e) under in
              rw under (omega (arith, counted), rw key_under (left ∙ rw key_under refl))
          | inr e ↦ rw under (omega (arith, counted), rw e left)
        ]
        | inr other ↦ elim (Bool-cases (str_eq k key)) [
          | inl e ↦
              let key_other = subst (λ w. starts_with w prefix ≡ false) (same k key e) other in
              rw other (omega (arith, counted), rw (e, key_other) refl)
          | inr e ↦ rw other (omega (arith, counted), rw e left)
        ]
      ]
