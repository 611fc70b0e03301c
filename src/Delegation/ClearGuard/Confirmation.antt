-- ===== src/Delegation/ClearGuard/Confirmation.antt =====
-- When the clear guard lets a run clear delegations.
use Prim.Native.String
use cgov_api.Prelude.Int.{pos}
use cgov_api.Prelude.{
  [], sym, ◌==◌, ◌&&◌, leb, ltb, ◌<◌, Bool-cases, ℕ, ◌≤◌, ◌≡◌, ◌≢◌, ◌⊎◌, ◌↔◌, refl, inl, inr, Bool,
  true, false, Option, none, some, String, List, arith, eq_iff, ◌∷◌, ◌++◌,
}
use cgov_api.Mapper.Numbers.{Double}
use cgov_api.Delegation.ClearGuard.{
  low_coverage_ratio, high_clear_ratio, empty_snapshot_with_active_state,
  invalid_snapshot_cardinality, Reason, Counts, ClearGuardCheckpoint,
  clear_baseline_min_active_stakes, reason_if, no_reasons, confirms, decide_clear,
  build_clear_guard_fingerprint, guard_reasons, ratio, evaluate_clear_guard,
}

-- The run before was held back, on these counts.
abbrev pub IsConfirmed : Option ClearGuardCheckpoint → String → Type 0
IsConfirmed prior fingerprint =
    (p : ClearGuardCheckpoint) × (prior ≡ some p)
    × (p.pending_confirmation ≡ true)
    × (p.fingerprint ≡ fingerprint)

confirms_iff :
    (prior : Option ClearGuardCheckpoint) (fingerprint : String)
    → (confirms prior fingerprint ≡ true) ↔ IsConfirmed prior fingerprint
unfolding confirms
confirms_iff none fingerprint = (λ e. ground arith, λ h. ground (arith, h.1))
confirms_iff (some p) fingerprint = (
  λ e. (p, refl, ground (arith, e), ground (arith, e, eq_iff p.fingerprint fingerprint)),
  λ h.
      let (q, same, pending, print) = h in
      ground (arith, same, pending, print, eq_iff p.fingerprint fingerprint),
)

decide_iff :
    (rs : List Reason) (fingerprint : String) (prior : Option ClearGuardCheckpoint)
    → ((decide_clear rs fingerprint prior).allow_clear ≡ true)
      ↔ ((rs ≡ []) ⊎ IsConfirmed prior fingerprint)
unfolding decide_clear no_reasons
decide_iff [] fingerprint prior = (λ _. inl refl, λ _. refl)
decide_iff (r ∷ rs) fingerprint prior = (
  λ e. inr ((confirms_iff prior fingerprint).0 e),
  λ h. elim h [ inl nothing ↦ ground arith | inr p ↦ (confirms_iff prior fingerprint).1 p ],
)

held_checkpoint :
    (rs : List Reason) (fingerprint : String) (prior : Option ClearGuardCheckpoint)
    → (decide_clear rs fingerprint prior).allow_clear ≡ false
    → IsConfirmed (some (decide_clear rs fingerprint prior).checkpoint) fingerprint
unfolding decide_clear no_reasons
held_checkpoint [] fingerprint prior held = ground (arith, held)
held_checkpoint (r ∷ rs) fingerprint prior held = (_, refl, refl, refl)

held_without_checkpoint :
    (rs : List Reason) (fingerprint : String)
    → rs ≢ []
    → (decide_clear rs fingerprint none).allow_clear ≡ false
unfolding decide_clear no_reasons confirms
held_without_checkpoint [] fingerprint h = ground (arith, h refl)
held_without_checkpoint (r ∷ rs) fingerprint h = refl

no_reasons_iff :
    (a x y z w : Bool) (r₁ r₂ r₃ r₄ : Reason)
    → (reason_if (a && x) r₁ ++ reason_if (a && y) r₂ ++ reason_if (a && z) r₃ ++ reason_if w r₄
        ≡ [])
      ↔ ((w ≡ false) × ((a ≡ false) ⊎ ((z ≡ false) × (x ≡ false) × (y ≡ false))))
no_reasons_iff false x y z true r₁ r₂ r₃ r₄ = (λ e. ground (arith, e), λ h. ground (arith, h))
no_reasons_iff false x y z false r₁ r₂ r₃ r₄ = (λ e. (refl, inl refl), λ h. refl)
no_reasons_iff true true y z w r₁ r₂ r₃ r₄ = (λ e. ground (arith, e), λ h. ground (arith, h))
no_reasons_iff true false true z w r₁ r₂ r₃ r₄ = (λ e. ground (arith, e), λ h. ground (arith, h))
no_reasons_iff true false false true w r₁ r₂ r₃ r₄ =
    (λ e. ground (arith, e), λ h. ground (arith, h))
no_reasons_iff true false false false true r₁ r₂ r₃ r₄ =
    (λ e. ground (arith, e), λ h. ground (arith, h))
no_reasons_iff true false false false false r₁ r₂ r₃ r₄ =
    (λ e. (refl, inr (refl, refl, refl)), λ h. refl)

third_reason :
    (a b e f : Bool) (r₁ r₂ r₃ r₄ : Reason)
    → e ≡ true
    → (reason_if a r₁ ++ reason_if b r₂ ++ reason_if e r₃ ++ reason_if f r₄) ≢ []
third_reason true b e f r₁ r₂ r₃ r₄ h = λ x. ground (arith, x)
third_reason false true e f r₁ r₂ r₃ r₄ h = λ x. ground (arith, x)
third_reason false false true f r₁ r₂ r₃ r₄ h = λ x. ground (arith, x)
third_reason false false false f r₁ r₂ r₃ r₄ h = ground (arith, h)

module _ (d : Double) (print : ℕ → String) where
  open d use {Num, of_ℤ, of_hundredths, div, lt}

  abbrev share : ℕ → Counts → Num
  share n c = div (of_ℤ (pos n)) (of_ℤ (pos c.active_delegation_state_count))

  -- The snapshot has no more addresses than rows were fetched; and where 200 delegations or more are
  -- active, it is not empty, it has no less than 90% as many addresses as delegations are active, and no
  -- more than 35% of these are to be cleared.
  abbrev pub IsSafe : Counts → Type 0
  IsSafe c =
      (c.snapshot_stake_count ≤ c.phase1_delegator_rows)
      × ((c.active_delegation_state_count < 200)
          ⊎ ((0 < c.snapshot_stake_count)
              × (lt (share c.snapshot_stake_count c) (of_hundredths 90) ≡ false)
              × (lt (of_hundredths 35) (share c.to_clear_count c) ≡ false)))

  -- The run before was held back, and its checkpoint has the text of these counts: of the active
  -- delegations, of the addresses of the snapshot, and of the delegations to clear.
  abbrev pub IsSecondRun : Option ClearGuardCheckpoint → Counts → Type 0
  IsSecondRun prior c = IsConfirmed prior (
      String.◌++◌ (print c.active_delegation_state_count) (
        String.◌++◌ "|"
          (String.◌++◌ (print c.snapshot_stake_count) (String.◌++◌ "|" (print c.to_clear_count)))))

  ratio-share :
      (n other : ℕ) (c : Counts)
      → leb 200 c.active_delegation_state_count ≡ true
      → ratio d print n c.active_delegation_state_count other ≡ share n c
  unfolding ratio
  ratio-share n other c many = rw (some_active c.active_delegation_state_count many) refl
    where
      some_active : (n : ℕ) → leb 200 n ≡ true → ltb 0 n ≡ true
      some_active n many = ground (arith, many)

  guard_reasons_iff : (c : Counts) → (guard_reasons d print c ≡ []) ↔ IsSafe c
  unfolding guard_reasons
  guard_reasons_iff c =
      let active = c.active_delegation_state_count in
      let (forth, back) =
        no_reasons_iff (leb 200 active)
          (lt (ratio d print c.snapshot_stake_count active 1) (of_hundredths 90))
          (lt (of_hundredths 35) (ratio d print c.to_clear_count active 0))
          (c.snapshot_stake_count == 0) (ltb c.phase1_delegator_rows c.snapshot_stake_count)
          low_coverage_ratio high_clear_ratio empty_snapshot_with_active_state
          invalid_snapshot_cardinality in
      elim (Bool-cases (leb 200 active)) [
        | inr few ↦ (
          λ e. (ground (arith, (forth e).0), inl (ground (arith, few))),
          λ h. back (ground (arith, h.0), inl few),
        )
        | inl many ↦ (
          λ e. elim (forth e).1 [
            | inl few ↦ absurd (ground (arith, many, few))
            | inr (present, coverage, clearing) ↦ (
              ground (arith, (forth e).0),
              inr (
                ground (arith, present),
                rw (sym (ratio-share c.snapshot_stake_count 1 c many)) coverage,
                rw (sym (ratio-share c.to_clear_count 0 c many)) clearing,
              ),
            )
          ],
          λ h. elim h.1 [
            | inl few ↦ absurd (ground (arith, many, few))
            | inr (present, coverage, clearing) ↦ back (
              ground (arith, h.0),
              inr (
                ground (arith, present),
                rw (ratio-share c.snapshot_stake_count 1 c many) coverage,
                rw (ratio-share c.to_clear_count 0 c many) clearing,
              ),
            )
          ],
        )
      ]

  -- A run clears exactly when its counts are safe, or when the checkpoint of the run before awaits a
  -- confirmation and has the text of the same active delegations, snapshot addresses and delegations to
  -- clear. Safe counts have no more addresses in the snapshot than rows fetched and, where 200
  -- delegations or more are active, a snapshot that is not empty and has at least 90% as many addresses
  -- as delegations are active, of which no more than 35% are to be cleared.
  pub clears_iff :
      (c : Counts) (prior : Option ClearGuardCheckpoint)
      → ((evaluate_clear_guard d print c prior).allow_clear ≡ true)
        ↔ (IsSafe c ⊎ IsSecondRun prior c)
  unfolding evaluate_clear_guard build_clear_guard_fingerprint
  clears_iff c prior =
      let (forth, back) =
        decide_iff (guard_reasons d print c) (build_clear_guard_fingerprint d print c) prior in
      let (safe, unsafe) = guard_reasons_iff c in
      (
        λ e. elim (forth e) [ inl nothing ↦ inl (safe nothing) | inr second ↦ inr second ],
        λ h. elim h [ inl counts ↦ back (inl (unsafe counts)) | inr second ↦ back (inr second) ],
      )

  -- A run that was held back is confirmed by the next one on the same counts, whatever number of rows
  -- that one has fetched.
  pub second_run_confirms :
      (c : Counts) (prior : Option ClearGuardCheckpoint) (rows : ℕ)
      → (evaluate_clear_guard d print c prior).allow_clear ≡ false
      → (evaluate_clear_guard d print
          (record c { phase1_delegator_rows = rows })
          (some (evaluate_clear_guard d print c prior).checkpoint)).allow_clear
        ≡ true
  unfolding evaluate_clear_guard
  second_run_confirms c prior rows held =
      (decide_iff (guard_reasons d print (record c { phase1_delegator_rows = rows }))
          (build_clear_guard_fingerprint d print c)
          (some (evaluate_clear_guard d print c prior).checkpoint)).1
        (inr (
          held_checkpoint (guard_reasons d print c) (build_clear_guard_fingerprint d print c) prior
            held))

  empty_reason :
      (c : Counts)
      → clear_baseline_min_active_stakes ≤ c.active_delegation_state_count
      → c.snapshot_stake_count ≡ 0
      → guard_reasons d print c ≢ []
  unfolding guard_reasons
  empty_reason c enough empty = third_reason _ _ _ _ _ _ _ _ (ground (arith, enough, empty))

  -- Without a checkpoint an empty snapshot clears nothing where 200 delegations or more are active.
  pub empty_snapshot_is_held :
      (c : Counts)
      → clear_baseline_min_active_stakes ≤ c.active_delegation_state_count
      → c.snapshot_stake_count ≡ 0
      → (evaluate_clear_guard d print c none).allow_clear ≡ false
  unfolding evaluate_clear_guard
  empty_snapshot_is_held c enough empty =
      held_without_checkpoint (guard_reasons d print c) (build_clear_guard_fingerprint d print c)
        (empty_reason c enough empty)
