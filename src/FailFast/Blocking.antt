-- ===== src/FailFast/Blocking.antt =====
-- When the ingestion fails fast.
use cgov_api.Prelude.{
  [], ℕ, ◌+◌, ◌<◌, ◌≡◌, ◌↔◌, ◌⊎◌, inl, inr, refl, true, List, ◌∷◌, Bool-cases, arith, ltb,
}
use cgov_api.Database.{Settings, Circuit, Semaphore, get_db_pressure_state}
use cgov_api.FailFast.{
  DbError, FailFastSettings, is_db_connectivity_error, until_with_pressure, should_fail_fast_for_db,
  record_db_failure_for_fail_fast,
}

-- What happened at a reading of the clock: a question, with the circuit and the semaphore as they were
-- then, or an error that was recorded.
pub data Event : Type 0 where
  asked : (now : ℕ) (circuit : Circuit) (semaphore : Semaphore) → Event
  failed : (now : ℕ) (error : DbError) → Event

module _ (settings : FailFastSettings) (db : Settings) where
  pub happen : ℕ → Event → ℕ
  unfolding should_fail_fast_for_db record_db_failure_for_fail_fast
  happen until (asked now c s) = (should_fail_fast_for_db settings db now c s until).1
  happen until (failed now e) = record_db_failure_for_fail_fast settings now e until

  pub happen_all : ℕ → List Event → ℕ
  unfolding happen
  happen_all until [] = until
  happen_all until (e ∷ es) = happen_all (happen until e) es

  -- The event forbids the database at the time `t`: it found the circuit open until later, or it was
  -- an error of the connection less than a cooldown before.
  abbrev pub Blocks : ℕ → Event → Type 0
  Blocks t (asked now c s) = (now < c.open_until) × (t < c.open_until)
  Blocks t (failed now e) =
      (is_db_connectivity_error settings e ≡ true) × (t < now + settings.cooldown_ms)

  abbrev pub AnyBlocks : ℕ → List Event → Type 0
  AnyBlocks t [] = ⊥
  AnyBlocks t (e ∷ es) = Blocks t e ⊎ AnyBlocks t es

  asked_iff :
      (t until now : ℕ) (c : Circuit) (s : Semaphore)
      → settings.enabled ≡ true
      → (t < happen until (asked now c s)) ↔ ((t < until) ⊎ Blocks t (asked now c s))
  unfolding happen should_fail_fast_for_db until_with_pressure get_db_pressure_state
  asked_iff t until now c s on = elim (Bool-cases (ltb now c.open_until)) [
    | inl is_open ↦
        rw (on, is_open) (λ h. ground (arith, is_open, h), λ h. ground (arith, is_open, h))
    | inr closed ↦ rw (on, closed) (λ h. inl h, λ h. ground (arith, closed, h))
  ]

  failed_iff :
      (t until now : ℕ) (e : DbError)
      → settings.enabled ≡ true
      → (t < happen until (failed now e)) ↔ ((t < until) ⊎ Blocks t (failed now e))
  unfolding happen record_db_failure_for_fail_fast
  failed_iff t until now e on = elim (Bool-cases (is_db_connectivity_error settings e)) [
    | inl of_connection ↦
        rw (on, of_connection) (λ h. ground (arith, h), λ h. ground (arith, of_connection, h))
    | inr other ↦ rw (on, other) (λ h. inl h, λ h. ground (arith, other, h))
  ]

  happen_iff :
      (t until : ℕ) (e : Event)
      → settings.enabled ≡ true
      → (t < happen until e) ↔ ((t < until) ⊎ Blocks t e)
  happen_iff t until (asked now c s) on = asked_iff t until now c s on
  happen_iff t until (failed now e) on = failed_iff t until now e on

  happen_all_iff :
      (es : List Event) (t until : ℕ)
      → settings.enabled ≡ true
      → (t < happen_all until es) ↔ ((t < until) ⊎ AnyBlocks t es)
  unfolding happen_all
  happen_all_iff [] t until on = (λ h. inl h, λ h. ground (arith, h))
  happen_all_iff (e ∷ es) t until on =
      let (forth, back) = happen_all_iff es t (happen until e) on in
      let (forth_e, back_e) = happen_iff t until e on in
      (
        λ h. elim (forth h) [
          | inl first ↦ elim (forth_e first) [
            | inl start ↦ inl start
            | inr blocks ↦ inr (inl blocks)
          ]
          | inr later ↦ inr (inr later)
        ],
        λ h. elim h [
          | inl start ↦ back (inl (back_e (inl start)))
          | inr some_block ↦ elim some_block [
            | inl blocks ↦ back (inl (back_e (inr blocks)))
            | inr later ↦ back (inr later)
          ]
        ],
      )

  answer_iff :
      (now : ℕ) (c : Circuit) (s : Semaphore) (until : ℕ)
      → ((should_fail_fast_for_db settings db now c s until).0 ≡ true)
        ↔ ((settings.enabled ≡ true) × (now < happen until (asked now c s)))
  unfolding happen should_fail_fast_for_db
  answer_iff now c s until = elim (Bool-cases settings.enabled) [
    | inl on ↦ rw on (λ h. (refl, ground (arith, h)), λ h. ground (arith, h.1))
    | inr off ↦ rw off (λ h. absurd (ground (arith, h)), λ h. h.0)
  ]

  -- After any questions and recorded errors, the ingestion fails fast exactly where this is enabled and
  -- a question, this one among them, found the circuit open until later than now, or an error of the
  -- connection was recorded less than a cooldown ago.
  pub fails_fast_iff :
      (es : List Event) (now : ℕ) (c : Circuit) (s : Semaphore)
      → ((should_fail_fast_for_db settings db now c s (happen_all 0 es)).0 ≡ true)
        ↔ ((settings.enabled ≡ true) × AnyBlocks now (asked now c s ∷ es))
  fails_fast_iff es now c s =
      let (forth, back) = answer_iff now c s (happen_all 0 es) in
      (
        λ h.
            let (on, ahead) = forth h in
            (
              on,
              elim ((asked_iff now (happen_all 0 es) now c s on).0 ahead) [
                | inl before ↦ elim ((happen_all_iff es now 0 on).0 before) [
                  | inl start ↦ absurd (omega (arith, start))
                  | inr blocks ↦ inr blocks
                ]
                | inr blocks ↦ inl blocks
              ],
            ),
        λ h. back (
          h.0,
          (asked_iff now (happen_all 0 es) now c s h.0).1 (elim h.1 [
            | inl blocks ↦ inr blocks
            | inr blocks ↦ inl ((happen_all_iff es now 0 h.0).1 (inr blocks))
          ]),
        ),
      )
