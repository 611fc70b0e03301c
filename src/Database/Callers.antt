-- ===== src/Database/Callers.antt =====
-- Callers of the write semaphore, in any order of arrivals and releases.
use mathlib.Core.List.{append_assoc, append-nil}
use cgov_api.Prelude.{
  [], ℕ, ◌-◌, ◌≤◌, ◌<◌, ◌≡◌, ◌⊎◌, inl, inr, refl, sym, ap, subst, ◌∙◌, Option, none, some, List,
  ◌∷◌, ◌++◌, length, length-append, ltb, leb, Bool-cases, arith, false,
}
use cgov_api.Database.{
  Semaphore, Admission, entered, waits, overflows, create_semaphore, acquire_semaphore, hand_over,
  release_semaphore,
}

pub data Event : Type 0 where
  arrive : ℕ → Event
  leave : Event

-- The semaphore, the callers that entered so far, and those that were not refused, in order.
pub record Run : Type 0 where
  pub semaphore : Semaphore
  pub admitted : List ℕ
  pub taken : List ℕ

note_arrival : ℕ → Run → Semaphore × Admission → Run
note_arrival caller r (s, entered) = record {
  semaphore = s;
  admitted = r.admitted ++ caller ∷ [];
  taken = r.taken ++ caller ∷ [];
}
note_arrival caller r (s, waits) = record r { semaphore = s; taken = r.taken ++ caller ∷ [] }
note_arrival caller r (s, overflows) = record r { semaphore = s }

note_leave : Run → Semaphore × Option ℕ → Run
note_leave r (s, none) = record r { semaphore = s }
note_leave r (s, some next) = record r { semaphore = s; admitted = r.admitted ++ next ∷ [] }

module _ (limit max_queue_depth : ℕ) where
  pub happen : Run → Event → Run
  unfolding note_arrival note_leave
  happen r (arrive caller) =
      note_arrival caller r (acquire_semaphore limit max_queue_depth caller r.semaphore)
  happen r leave = note_leave r (release_semaphore r.semaphore)

  pub happen_all : Run → List Event → Run
  unfolding happen
  happen_all r [] = r
  happen_all r (e ∷ es) = happen_all (happen r e) es

  -- No more callers are active than allowed and no more wait than fit; callers wait only while the
  -- semaphore is full; and those who were not refused enter in the order in which they came.
  pub record IsOrderly (r : Run) : Type 0 where
    pub within : r.semaphore.active ≤ limit
    pub fits : length r.semaphore.queue ≤ max_queue_depth
    pub full : (r.semaphore.queue ≡ []) ⊎ (r.semaphore.active ≡ limit)
    pub in_order : r.taken ≡ r.admitted ++ r.semaphore.queue

  snoc_after :
      (taken admitted queue : List ℕ) (caller : ℕ)
      → taken ≡ admitted ++ queue
      → taken ++ caller ∷ [] ≡ admitted ++ (queue ++ caller ∷ [])
  snoc_after taken admitted queue caller e =
      ap (λ l. l ++ caller ∷ []) e ∙ append_assoc admitted queue (caller ∷ [])

  enters_alone :
      (taken admitted queue : List ℕ) (caller : ℕ)
      → queue ≡ []
      → taken ≡ admitted ++ queue
      → taken ++ caller ∷ [] ≡ admitted ++ caller ∷ [] ++ queue
  enters_alone taken admitted queue caller e h =
      subst (λ q. taken ++ caller ∷ [] ≡ admitted ++ caller ∷ [] ++ q) (sym e)
        (ap (λ l. l ++ caller ∷ []) (h ∙ ap (λ q. admitted ++ q) e ∙ append-nil admitted)
          ∙ sym (append-nil (admitted ++ caller ∷ [])))

  arrive-IsOrderly : (r : Run) (caller : ℕ) → IsOrderly r → IsOrderly (happen r (arrive caller))
  unfolding happen acquire_semaphore
  arrive-IsOrderly r caller h = elim (Bool-cases (ltb r.semaphore.active limit)) [
    | inl room ↦ elim h.full [
      | inl none_wait ↦ rw room (record {
        within = ground (arith, room);
        fits = h.fits;
        full = inl none_wait;
        in_order = enters_alone r.taken r.admitted r.semaphore.queue caller none_wait h.in_order;
      })
      | inr full ↦ absurd (ground (arith, room, full))
    ]
    | inr busy ↦ elim (Bool-cases (leb max_queue_depth (length r.semaphore.queue))) [
      | inl overflow ↦
          rw (busy, overflow)
            (record { within = h.within; fits = h.fits; full = h.full; in_order = h.in_order })
      | inr fits ↦
          rw (busy, fits)
            (record {
              within = h.within;
              fits = omega (arith, length-append r.semaphore.queue (caller ∷ []), ltb_of fits);
              full = inr (ground (arith, busy, h.within));
              in_order = snoc_after r.taken r.admitted r.semaphore.queue caller h.in_order;
            })
    ]
  ]
    where
      ltb_of :
          leb max_queue_depth (length r.semaphore.queue) ≡ false
          → length r.semaphore.queue < max_queue_depth
      ltb_of e = ground (arith, e)

  leave-IsOrderly : (r : Run) → 1 ≤ limit → IsOrderly r → IsOrderly (happen r leave)
  unfolding happen release_semaphore hand_over
  leave-IsOrderly r some_room h = of_queue r.semaphore.queue refl
    where
      of_queue :
          (queue : List ℕ)
          → r.semaphore.queue ≡ queue
          → IsOrderly
              (note_leave r (hand_over (r.semaphore.active - 1) r.semaphore.saturated_count queue))
      of_queue [] e = record {
        within = omega (arith, h.within);
        fits = omega arith;
        full = inl refl;
        in_order = h.in_order ∙ ap (λ q. r.admitted ++ q) e;
      }
      of_queue (next ∷ queue) e =
          let full : r.semaphore.active ≡ limit = elim h.full [
            | inl none_wait ↦ absurd (ground (arith, e, none_wait))
            | inr full ↦ full
          ] in
          record {
            within = omega (arith, full);
            fits = omega (arith, h.fits, ap (λ q. length q) e);
            full = inr (omega (arith, full, some_room));
            in_order =
                h.in_order
                ∙ ap (λ q. r.admitted ++ q) e
                ∙ sym (append_assoc r.admitted (next ∷ []) queue);
          }

  start-IsOrderly : IsOrderly (record { semaphore = create_semaphore; admitted = []; taken = [] })
  start-IsOrderly = record {
    within = omega arith;
    fits = omega arith;
    full = inl refl;
    in_order = refl;
  }

  happen_all-IsOrderly :
      (es : List Event) (r : Run) → 1 ≤ limit → IsOrderly r → IsOrderly (happen_all r es)
  unfolding happen_all
  happen_all-IsOrderly [] r some_room h = h
  happen_all-IsOrderly (arrive caller ∷ es) r some_room h =
      happen_all-IsOrderly es (happen r (arrive caller)) some_room (arrive-IsOrderly r caller h)
  happen_all-IsOrderly (leave ∷ es) r some_room h =
      happen_all-IsOrderly es (happen r leave) some_room (leave-IsOrderly r some_room h)

-- From the start and through any arrivals and releases, if the limit is not 0, the semaphore keeps to its
-- limit and to the depth of its queue, makes callers wait only while it is full, and lets those it did
-- not refuse enter in the order in which they came.
pub semaphore_IsOrderly :
    (limit max_queue_depth : ℕ) (es : List Event)
    → 1 ≤ limit
    → IsOrderly limit max_queue_depth (
        happen_all limit max_queue_depth
          (record { semaphore = create_semaphore; admitted = []; taken = [] })
          es)
semaphore_IsOrderly limit max_queue_depth es some_room =
    happen_all-IsOrderly limit max_queue_depth es _ some_room
      (start-IsOrderly limit max_queue_depth)
