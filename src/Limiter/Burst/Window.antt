-- ===== src/Limiter/Burst/Window.antt =====
-- The window of a `BurstLimiter`: the timestamps that one call drops and keeps, and the spacing of
-- timestamps.
use mathlib.Core.List.{append_assoc}
use cgov_api.Prelude.{
  [], ℕ, ◌+◌, ◌≤◌, ◌<◌, ◌≡◌, refl, sym, ◌∙◌, ap, subst, inl, inr, Bool-cases, some, List, ◌∷◌, ◌++◌,
  length, length-append, All, All-append, All-map, get_elem?, All-get_elem?, get_elem?-append_left,
  get_elem?-snoc, arith, ltb, leb,
}
use cgov_api.Limiter.Burst.{BurstLimiter, trim, to_wait, acquire_loop}

-- A clock that does not go back, from `start` on.
abbrev pub IsMonotone : ℕ → List ℕ → Type 0
IsMonotone start [] = Unit {0}
IsMonotone start (t ∷ ts) = (start ≤ t) × IsMonotone t ts

abbrev pub Expired : ℕ → ℕ → ℕ → Type 0
Expired window now t = t + window ≤ now

-- `trim` drops a prefix of expired timestamps.
trim_split :
    (window now : ℕ) (ts : List ℕ)
    → (dropped : List ℕ) × (ts ≡ dropped ++ trim window now ts) × All (Expired window now) dropped
unfolding trim
trim_split window now [] = ([], refl, tt)
trim_split window now (t ∷ ts) = elim (Bool-cases (leb (t + window) now)) [
  | inl over ↦
      let (dropped, split, gone) = trim_split window now ts in
      rw over (t ∷ dropped, ap (◌∷◌ t) split, (ground arith, gone))
  | inr young ↦ rw young ([], refl, tt)
]

-- What one call of the loop does: it drops expired timestamps, keeps fewer than the limit, and adds
-- the reading at which it was granted.
pub record Grant (limit window start : ℕ) (ts ts' rest : List ℕ) : Type 0 where
  pub dropped : List ℕ
  pub kept : List ℕ
  pub stamp : ℕ
  pub split : ts ≡ dropped ++ kept
  pub gone : All (Expired window stamp) dropped
  pub room : length kept < limit
  pub later : start ≤ stamp
  pub result : ts' ≡ kept ++ stamp ∷ []
  pub clock : IsMonotone stamp rest

pub Expired-mono :
    (window now later : ℕ) (ts : List ℕ)
    → now ≤ later
    → All (Expired window now) ts
    → All (Expired window later) ts
Expired-mono window now later ts h =
    All-map (Expired window now) (Expired window later) (λ t e. omega arith) ts

pub acquire_loop-Grant :
    (limit window start : ℕ) (ts clock ts' rest : List ℕ) (waited w : ℕ)
    → IsMonotone start clock
    → acquire_loop limit window ts clock waited ≡ some (ts', rest, w)
    → Grant limit window start ts ts' rest
unfolding acquire_loop
acquire_loop-Grant limit window start ts [] ts' rest waited w m e = absurd (ground arith)
acquire_loop-Grant limit window start ts (now ∷ []) ts' rest waited w m e = absurd (ground arith)
acquire_loop-Grant limit window start ts (now ∷ stamp ∷ clock) ts' rest waited w m e =
    let (dropped, split, gone) = trim_split window now ts in
    elim (Bool-cases (ltb (length (trim window now ts)) limit)) [
      | inl room ↦ record {
        dropped = dropped;
        kept = trim window now ts;
        stamp = stamp;
        split = split;
        gone = Expired-mono window now stamp dropped m.1.0 gone;
        room = ground arith;
        later = omega arith;
        result = ground arith;
        clock = subst (IsMonotone stamp) (ground arith) m.1.1;
      }
      | inr full ↦ extend dropped split gone (
          acquire_loop-Grant limit window now (trim window now ts) (stamp ∷ clock) ts' rest
            (waited + to_wait window now (trim window now ts)) w m.1 (ground arith))
    ]
  where
    extend :
        (dropped : List ℕ)
        → ts ≡ dropped ++ trim window now ts
        → All (Expired window now) dropped
        → Grant limit window now (trim window now ts) ts' rest
        → Grant limit window start ts ts' rest
    extend dropped split gone g = record {
      dropped = dropped ++ g.dropped;
      kept = g.kept;
      stamp = g.stamp;
      split = split ∙ (ap (◌++◌ dropped) g.split ∙ sym (append_assoc dropped g.dropped g.kept));
      gone =
          All-append (Expired window g.stamp) dropped g.dropped
            (Expired-mono window now g.stamp dropped g.later gone) g.gone;
      room = g.room;
      later = omega (arith, g.later);
      result = g.result;
      clock = g.clock;
    }

-- The timestamps of successive grants, oldest first: any two that are `limit` grants apart are at
-- least a window apart.
abbrev pub IsSpaced : ℕ → ℕ → List ℕ → Type 0
IsSpaced limit window stamps =
    (i a b : ℕ)
    → get_elem? stamps i ≡ some a
    → get_elem? stamps (i + limit) ≡ some b
    → a + window ≤ b

-- The state of a limiter after the grants `stamps`, at a time that is not before `now`.
pub record Inv (l : BurstLimiter) (stamps : List ℕ) (now : ℕ) : Type 0 where
  pub forgotten : List ℕ
  pub history : stamps ≡ forgotten ++ l.timestamps
  pub past : All (Expired l.window_ms now) forgotten
  pub spaced : IsSpaced l.max_requests l.window_ms stamps

pub grant-IsSpaced :
    (limit window stamp : ℕ) (forgotten kept : List ℕ)
    → All (Expired window stamp) forgotten
    → length kept < limit
    → IsSpaced limit window (forgotten ++ kept)
    → IsSpaced limit window ((forgotten ++ kept) ++ stamp ∷ [])
grant-IsSpaced limit window stamp forgotten kept past room spaced i a b p q =
    elim (get_elem?-snoc (forgotten ++ kept) stamp b (i + limit) q) [
      | inl (below, at_b) ↦
          spaced i a b
            (sym (get_elem?-append_left (forgotten ++ kept) (stamp ∷ []) i (omega arith)) ∙ p) at_b
      | inr (last, same) ↦
          let in_forgotten : i < length forgotten = omega (arith, length-append forgotten kept) in
          let found : get_elem? forgotten i ≡ some a =
            sym (get_elem?-append_left forgotten kept i in_forgotten)
            ∙ sym (
                get_elem?-append_left (forgotten ++ kept) (stamp ∷ []) i
                  (omega (arith, length-append forgotten kept)))
            ∙ p in
          omega (arith, same, All-get_elem? (Expired window stamp) forgotten i a past found)
    ]
