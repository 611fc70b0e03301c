-- ===== src/Limiter/Burst/Rate.antt =====
-- Many calls of `BurstLimiter.acquire`, and the end of one.
use mathlib.Core.List.{append_assoc}
use cgov_api.Prelude.{
  [], ℕ, zero, suc, ◌+◌, ◌≤◌, ◌<◌, ◌≡◌, ◌≢◌, refl, sym, ◌∙◌, ap, subst, inl, inr, none, some,
  Option-cases, List, ◌∷◌, ◌++◌, length, length-append, All, All-append, arith,
}
use cgov_api.Limiter.Burst.{
  BurstLimiter, trim, to_wait, acquire_loop, acquire, newest, acquire_many, fresh,
}
use cgov_api.Limiter.Burst.Window.{
  IsMonotone, Expired, Expired-mono, Grant, acquire_loop-Grant, IsSpaced, Inv, grant-IsSpaced,
}

newest-snoc : (ts : List ℕ) (t : ℕ) → newest (ts ++ t ∷ []) ≡ t
unfolding newest
newest-snoc [] t = refl
newest-snoc (u ∷ []) t = refl
newest-snoc (u ∷ v ∷ ts) t = newest-snoc (v ∷ ts) t

acquire-Grant :
    (l l' : BurstLimiter) (start : ℕ) (clock rest : List ℕ) (w : ℕ)
    → IsMonotone start clock
    → acquire l clock ≡ some (l', rest, w)
    → Grant l.max_requests l.window_ms start l.timestamps l'.timestamps rest
      × (l'.max_requests ≡ l.max_requests)
      × (l'.window_ms ≡ l.window_ms)
unfolding acquire
acquire-Grant l l' start clock rest w m e =
    elim (Option-cases (acquire_loop l.max_requests l.window_ms l.timestamps clock 0)) [
      | inl stuck ↦ absurd (ground (arith, stuck))
      | inr ((ts', rest', w'), done) ↦
          let g =
            acquire_loop-Grant l.max_requests l.window_ms start l.timestamps clock ts' rest' 0 w' m
              done in
          let same_stamps : ts' ≡ l'.timestamps = ground (arith, done) in
          let same_rest : rest' ≡ rest = ground (arith, done) in
          (
            subst (λ r. Grant l.max_requests l.window_ms start l.timestamps l'.timestamps r)
                same_rest
                (subst (λ t. Grant l.max_requests l.window_ms start l.timestamps t rest')
                  same_stamps g),
            ground (arith, done),
            ground (arith, done),
          )
    ]

-- A call keeps the invariant, for the history that its timestamp extends.
acquire-Inv :
    (l l' : BurstLimiter) (stamps : List ℕ) (start : ℕ) (clock rest : List ℕ) (w : ℕ)
    → IsMonotone start clock
    → acquire l clock ≡ some (l', rest, w)
    → Inv l stamps start
    → (now : ℕ) × Inv l' (stamps ++ newest l'.timestamps ∷ []) now
      × IsMonotone now rest
      × (l'.max_requests ≡ l.max_requests)
      × (l'.window_ms ≡ l.window_ms)
acquire-Inv l l' stamps start clock rest w m e inv =
    let (g, same_limit, same_window) = acquire-Grant l l' start clock rest w m e in
    let gone = inv.forgotten ++ g.dropped in
    let stamped : newest l'.timestamps ≡ g.stamp =
      ap newest g.result ∙ newest-snoc g.kept g.stamp in
    let before : stamps ≡ gone ++ g.kept =
      inv.history
      ∙ (ap (◌++◌ inv.forgotten) g.split ∙ sym (append_assoc inv.forgotten g.dropped g.kept)) in
    let past : All (Expired l.window_ms g.stamp) gone =
      All-append (Expired l.window_ms g.stamp) inv.forgotten g.dropped
        (Expired-mono l.window_ms start g.stamp inv.forgotten g.later inv.past) g.gone in
    let spaced : IsSpaced l.max_requests l.window_ms (stamps ++ g.stamp ∷ []) =
      subst (λ s. IsSpaced l.max_requests l.window_ms (s ++ g.stamp ∷ [])) (sym before)
        (grant-IsSpaced l.max_requests l.window_ms g.stamp gone g.kept past g.room
          (subst (IsSpaced l.max_requests l.window_ms) before inv.spaced)) in
    (
      g.stamp,
      record {
        forgotten = gone;
        history = rw (stamped, before, g.result) (append_assoc gone g.kept (g.stamp ∷ []));
        past = rw same_window past;
        spaced = rw (stamped, same_limit, same_window) spaced;
      },
      g.clock,
      same_limit,
      same_window,
    )

acquire_many-IsSpaced :
    (n : ℕ) (l : BurstLimiter) (clock stamps all : List ℕ) (start : ℕ)
    → IsMonotone start clock
    → Inv l stamps start
    → acquire_many n l clock stamps ≡ some all
    → IsSpaced l.max_requests l.window_ms all × (length all ≡ length stamps + n)
unfolding acquire_many
acquire_many-IsSpaced zero l clock stamps all start m inv e =
    let same : stamps ≡ all = ground arith in
    (subst (IsSpaced l.max_requests l.window_ms) same inv.spaced, omega (arith, ap length same))
acquire_many-IsSpaced (suc n) l clock stamps all start m inv e =
    elim (Option-cases (acquire l clock)) [
      | inl stuck ↦ absurd (ground (arith, stuck))
      | inr ((l', rest, w), done) ↦
          let (now, inv', m', same_limit, same_window) =
            acquire-Inv l l' stamps start clock rest w m done inv in
          let (spaced, size) =
            acquire_many-IsSpaced n l' rest (stamps ++ newest l'.timestamps ∷ []) all now m' inv'
              (ground (arith, done)) in
          (
            rw (← same_limit, ← same_window) spaced,
            omega (arith, size, length-append stamps (newest l'.timestamps ∷ [])),
          )
    ]

-- Where calls on a fresh limiter, with a clock that does not go back, have all returned, they were
-- granted one timestamp each, and timestamps that are `limit` grants apart are at least a window
-- apart.
pub acquire_many_rate :
    (n limit window : ℕ) (clock stamps : List ℕ)
    → IsMonotone 0 clock
    → acquire_many n (fresh limit window) clock [] ≡ some stamps
    → IsSpaced limit window stamps × (length stamps ≡ n)
unfolding fresh
acquire_many_rate n limit window clock stamps m e =
    let (spaced, size) = acquire_many-IsSpaced n (fresh limit window) clock [] stamps 0 m start e in
    (spaced, omega (arith, size))
  where
    start : Inv (fresh limit window) [] 0
    start = record {
      forgotten = [];
      history = refl;
      past = tt;
      spaced = λ i a b p q. absurd (ground arith);
    }

trim-length-le : (window now : ℕ) (ts : List ℕ) → length (trim window now ts) ≤ length ts
unfolding trim
trim-length-le window now [] = omega arith
trim-length-le window now (t ∷ ts) = ground (arith, trim-length-le window now ts)

trim_after_wait :
    (window now later limit : ℕ) (ts : List ℕ)
    → 0 < limit
    → length ts ≤ limit
    → now + to_wait window now ts ≤ later
    → length (trim window later ts) < limit
unfolding trim to_wait
trim_after_wait window now later limit [] h k w = omega arith
trim_after_wait window now later limit (t ∷ ts) h k w =
    ground (arith, trim-length-le window later ts)

-- A call returns: where something is allowed at all and no more timestamps are held than allowed,
-- the loop ends by its second round, if the sleep lasted as long as it was asked to.
pub acquire_returns :
    (l : BurstLimiter) (now later stamp : ℕ) (clock : List ℕ)
    → 0 < l.max_requests
    → length l.timestamps ≤ l.max_requests
    → now + to_wait l.window_ms now (trim l.window_ms now l.timestamps) ≤ later
    → acquire l (now ∷ later ∷ stamp ∷ clock) ≢ none
unfolding acquire acquire_loop
acquire_returns l now later stamp clock h k w = ground (
  arith,
  trim-length-le l.window_ms now l.timestamps,
  trim_after_wait l.window_ms now later l.max_requests (trim l.window_ms now l.timestamps) h,
)
