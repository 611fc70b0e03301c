-- ===== src/Parallel/Invariant.antt =====
-- The invariant of the pool of `processInParallel`, step by step.
use cgov_api.Prelude.{
  [], ℕ, zero, suc, ◌+◌, ◌≤◌, ◌<◌, ◌≡◌, ◌⊎◌, ◌↔◌, inl, inr, refl, Bool, Bool-cases, true, false,
  Option, Option-cases, none, some, String, List, ◌∷◌, ◌++◌, length, length-append, ltb, arith,
}
use cgov_api.Parallel.{
  Settlement, returned, skipped, threw, Pool, start_tasks, take_out, start_more, process_next,
  record_result, settle, Failure, count_out, settle_all,
}

pub start_tasks_lem :
    {A : Type 0} (c : ℕ) (waiting running : List A)
    → length running ≤ c
    → let s = start_tasks c waiting running in
      (length s.1 ≤ c)
      × (length s.0 + length s.1 ≡ length waiting + length running)
      × ((length s.0 ≡ 0) ⊎ (length s.1 ≡ c))
unfolding start_tasks
start_tasks_lem c [] running h = (h, refl, inl refl)
start_tasks_lem c (x ∷ waiting) running h = elim (Bool-cases (ltb (length running) c)) [
  | inl lt ↦ rw lt (
      ground (
        arith,
        start_tasks_lem c waiting (running ++ x ∷ [])
            (ground (arith, lt, length-append running (x ∷ []))),
        length-append running (x ∷ []),
      ))
  | inr ge ↦ rw ge (ground arith)
]

-- Of `items` items, those not yet settled, and what the pool has gathered of the others.
abbrev pub IsSound : {A B : Type 0} → ℕ → ℕ → Pool A B → Type 0
IsSound items c p =
    (length p.running ≤ c)
    × ((length p.waiting ≡ 0) ⊎ (length p.running ≡ c))
    × ((p.resolved ≡ true) ↔ (length p.waiting + length p.running ≡ 0))
    × (length p.successful + length p.failed + length p.waiting + length p.running ≤ items)

pub take_out-length {ℓ} :
    {A : Type ℓ} (k : ℕ) (xs : List A) (x : A) (others : List A)
    → take_out k xs ≡ some (x, others)
    → length xs ≡ length others + 1
unfolding take_out
take_out-length k [] x others e = ground arith
take_out-length zero (y ∷ xs) x others e = ground arith
take_out-length (suc k) (y ∷ xs) x others e = elim (Option-cases (take_out k xs)) [
  | inl t ↦ ground (arith, t, e)
  | inr ((z, zs), t) ↦ ground (arith, t, e, take_out-length k xs z zs t)
]

module _ {A B : Type 0} (get_id : A → String) (c items : ℕ) where
  -- What `process_next` is given.
  abbrev pub IsReady : Pool A B → Type 0
  IsReady p =
      (length p.running ≤ c)
      × (p.resolved ≡ false)
      × (length p.successful + length p.failed + length p.waiting + length p.running ≤ items)

  start_more-IsSound :
      (p : Pool A B)
      → IsReady p
      → 0 < length p.waiting + length p.running
      → IsSound items c (start_more get_id c p)
  unfolding start_more
  start_more-IsSound p (le, open_p, total) busy =
      let (bound, kept, full) = start_tasks_lem c p.waiting p.running le in
      (bound, full, (λ e. ground (arith, e, open_p), λ e. ground (arith, e, kept)), omega arith)

  abbrev pub IsNextCase : Pool A B → Type 0
  IsNextCase p =
      ((length p.waiting + length p.running ≡ 0)
        × (process_next get_id c p ≡ record p { resolved = true }))
      ⊎ ((0 < length p.waiting + length p.running)
          × (process_next get_id c p ≡ start_more get_id c p))

  pub next_cases :
      (w r : List A) (s : List B) (f : List Failure) (b : Bool)
      → IsNextCase (record { waiting = w; running = r; successful = s; failed = f; resolved = b })
  unfolding process_next
  next_cases [] [] s f b = inl (refl, refl)
  next_cases [] (x ∷ xs) s f b = inr (omega arith, refl)
  next_cases (x ∷ w) r s f b = inr (omega arith, refl)

  pub process_next-IsSound : (p : Pool A B) → IsReady p → IsSound items c (process_next get_id c p)
  process_next-IsSound p ready =
      elim (next_cases p.waiting p.running p.successful p.failed p.resolved) [
        | inl (idle, e) ↦ rw e (ready.0, inl (omega arith), (λ _. idle, λ _. refl), ready.2)
        | inr (busy, e) ↦ rw e (start_more-IsSound p ready busy)
      ]

  not_resolved : (p : Pool A B) → IsSound items c p → 0 < length p.running → p.resolved ≡ false
  not_resolved p h busy = ground (arith, h.2)

  settled-IsReady :
      (s : Settlement B) (x : A) (p : Pool A B) (others : List A)
      → IsSound items c p
      → length p.running ≡ length others + 1
      → IsReady (record_result get_id c x s (record p { running = others }))
  unfolding record_result
  settled-IsReady (returned b) x p others h e = (
    omega arith,
    not_resolved p h (omega arith),
    omega (arith, length-append p.successful (b ∷ [])),
  )
  settled-IsReady skipped x p others h e =
      (omega arith, not_resolved p h (omega arith), omega (arith))
  settled-IsReady (threw m) x p others h e = (
    omega arith,
    not_resolved p h (omega arith),
    omega (arith, length-append p.failed (record { id = get_id x; error = m } ∷ [])),
  )

  count_out-IsSound :
      (k : ℕ) (s : Settlement B) (p : Pool A B) (t : Option (A × List A))
      → take_out k p.running ≡ t
      → IsSound items c p
      → IsSound items c (count_out get_id c s p t)
  unfolding count_out
  count_out-IsSound k s p none e h = h
  count_out-IsSound k s p (some (x, others)) e h =
      process_next-IsSound _
        (settled-IsReady s x p others h (take_out-length k p.running x others e))

  pub settle-IsSound :
      (k : ℕ) (s : Settlement B) (p : Pool A B)
      → IsSound items c p
      → IsSound items c (settle get_id c k s p)
  unfolding settle
  settle-IsSound k s p h = count_out-IsSound k s p (take_out k p.running) refl h

  pub settle_all-IsSound :
      (order : List (ℕ × Settlement B)) (p : Pool A B)
      → IsSound items c p
      → IsSound items c (settle_all get_id c order p)
  unfolding settle_all
  settle_all-IsSound [] p h = h
  settle_all-IsSound ((k, s) ∷ more) p h = settle_all-IsSound more _ (settle-IsSound k s p h)
