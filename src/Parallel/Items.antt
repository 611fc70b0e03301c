-- ===== src/Parallel/Items.antt =====
-- Where the items of `processInParallel` are.
pub mod Results
use mathlib.Core.List.Perm
use mathlib.Core.List.{Perm, perm_middle, append_assoc, append-nil}
use cgov_api.Prelude.{
  [], ℕ, zero, suc, ◌≡◌, ◌⊎◌, inl, inr, refl, sym, ap, ◌∙◌, subst, Bool-cases, Option, none, some,
  String, List, ◌∷◌, ◌++◌, length, ltb, get_elem?,
}
use cgov_api.Parallel.{
  Settlement, returned, skipped, threw, Pool, start_tasks, take_out, start_more, process_next,
  record_result, count_out, settle, initial, settle_all,
}
use cgov_api.Parallel.Invariant.{next_cases}

module _ {A : Type 0} where
  -- An item that settles, with how it does.
  abbrev pub settled_by : {B : Type 0} → Settlement B → Option A → List (A × Settlement B)
  settled_by s none = []
  settled_by s (some x) = (x, s) ∷ []

  abbrev pub items_of : {B : Type 0} → List (A × Settlement B) → List A
  items_of [] = []
  items_of ((x, s) ∷ more) = x ∷ items_of more

  items_of-append :
      {B : Type 0} (ps qs : List (A × Settlement B))
      → items_of (ps ++ qs) ≡ items_of ps ++ items_of qs
  items_of-append [] qs = refl
  items_of-append ((x, s) ∷ ps) qs = ap (λ l. x ∷ l) (items_of-append ps qs)

  abbrev TakesOut : ℕ → List A → Type 0
  TakesOut k xs =
      ((take_out k xs ≡ none) × (get_elem? xs k ≡ none))
      ⊎ ((x : A) × (others : List A) × (take_out k xs ≡ some (x, others))
          × (get_elem? xs k ≡ some x)
          × Perm (x ∷ others) xs)

  pub take_out_lem : (k : ℕ) (xs : List A) → TakesOut k xs
  unfolding take_out
  take_out_lem k [] = inl (refl, refl)
  take_out_lem zero (x ∷ xs) = inr (x, xs, refl, refl, Perm.rfl)
  take_out_lem (suc k) (x ∷ xs) = elim (take_out_lem k xs) [
    | inl (nothing, absent) ↦ inl (rw nothing refl, absent)
    | inr (y, ys, e, found, same) ↦
        inr (y, x ∷ ys, rw e refl, found, Perm.trans (Perm.swap x y ys) (Perm.cons x same))
  ]

  moved :
      (x : A) (waiting running : List A)
      → Perm (waiting ++ (running ++ x ∷ [])) (x ∷ (waiting ++ running))
  moved x waiting running =
      let last = Perm.append_left waiting (perm_middle {a = x} running []) in
      let last' =
        subst (λ l. Perm (waiting ++ (running ++ x ∷ [])) (waiting ++ x ∷ l)) (append-nil running)
          last in
      Perm.trans last' (perm_middle waiting running)

  start_tasks-Perm :
      (c : ℕ) (waiting running : List A)
      → let s = start_tasks c waiting running in Perm (s.0 ++ s.1) (waiting ++ running)
  unfolding start_tasks
  start_tasks-Perm c [] running = Perm.rfl
  start_tasks-Perm c (x ∷ waiting) running = elim (Bool-cases (ltb (length running) c)) [
    | inl lt ↦
        rw lt
          (Perm.trans (start_tasks-Perm c waiting (running ++ x ∷ [])) (moved x waiting running))
    | inr ge ↦ rw ge Perm.rfl
  ]

module _ {A B : Type 0} (get_id : A → String) (c : ℕ) where
  abbrev held : Pool A B → List A
  held p = p.waiting ++ p.running

  -- The items that settle, each time the one that runs at the place named, if there is one.
  pub settlements : List (ℕ × Settlement B) → Pool A B → List (A × Settlement B)
  settlements [] p = []
  settlements ((k, s) ∷ more) p =
      settled_by s (get_elem? p.running k) ++ settlements more (settle get_id c k s p)

  process_next-held : (p : Pool A B) → Perm (held (process_next get_id c p)) (held p)
  unfolding start_more
  process_next-held p =
      elim (next_cases get_id c 0 p.waiting p.running p.successful p.failed p.resolved) [
        | inl (idle, e) ↦ rw e Perm.rfl
        | inr (busy, e) ↦ rw e (start_tasks-Perm c p.waiting p.running)
      ]

  record_result-held :
      (x : A) (s : Settlement B) (p : Pool A B) → held (record_result get_id c x s p) ≡ held p
  unfolding record_result
  record_result-held x (returned b) p = refl
  record_result-held x skipped p = refl
  record_result-held x (threw e) p = refl

  settle-held :
      (k : ℕ) (s : Settlement B) (p : Pool A B)
      → Perm
          (items_of (settled_by s (get_elem? p.running k)) ++ held (settle get_id c k s p))
          (held p)
  unfolding settle count_out
  settle-held k s p = elim (take_out_lem k p.running) [
    | inl (nothing, absent) ↦ rw (nothing, absent) Perm.rfl
    | inr (x, others, e, found, same) ↦
        let q = record_result get_id c x s (record p { running = others }) in
        let next =
          subst (λ l. Perm (held (process_next get_id c q)) l)
            (record_result-held x s (record p { running = others })) (process_next-held q) in
        rw (e, found)
          (Perm.trans (Perm.cons x next) (
            Perm.trans (Perm.symm (perm_middle p.waiting others))
              (Perm.append_left p.waiting same)))
  ]

  settle_all-held :
      (order : List (ℕ × Settlement B)) (p : Pool A B)
      → Perm (items_of (settlements order p) ++ held (settle_all get_id c order p)) (held p)
  unfolding settlements settle_all
  settle_all-held [] p = Perm.rfl
  settle_all-held ((k, s) ∷ more) p =
      let first = settled_by s (get_elem? p.running k) in
      let later = settlements more (settle get_id c k s p) in
      let left = held (settle_all get_id c more (settle get_id c k s p)) in
      subst (λ l. Perm l (held p))
        (sym (
          ap (λ l. l ++ left) (items_of-append first later)
          ∙ append_assoc (items_of first) (items_of later) left))
        (Perm.trans
          (Perm.append_left (items_of first) (settle_all-held more (settle get_id c k s p)))
          (settle-held k s p))

  pub items_kept :
      (xs : List A) (order : List (ℕ × Settlement B))
      → let start = process_next get_id c (initial get_id c xs) in
        let p = settle_all get_id c order start in
        Perm (items_of (settlements order start) ++ (p.waiting ++ p.running)) xs
  items_kept xs order =
      let start = process_next get_id c (initial get_id c xs) in
      Perm.trans (settle_all-held order start)
        (subst (λ l. Perm (held start) l) (append-nil xs) (process_next-held (initial get_id c xs)))
