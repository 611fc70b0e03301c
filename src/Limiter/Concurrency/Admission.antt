-- ===== src/Limiter/Concurrency/Admission.antt =====
-- How many operations a `ConcurrencyLimiter` lets run at a time.
use cgov_api.Prelude.{
  [], ℕ, ◌+◌, ◌≤◌, ◌<◌, ◌≡◌, refl, sym, ◌∙◌, max, ap, List, ◌∷◌, length, length-append, arith,
}
use cgov_api.Limiter.Concurrency.{
  MaxConcurrent, Limiter, get_max_concurrent, acquire, resume, release, Turn, starts, ends, resumes,
  turn, run, fresh,
}

-- A turn that may come next: a task ends only if one is active, and no task starts while a woken
-- one has yet to go on.
pub data IsOrderly (l : Limiter) : Turn → Type 0 where
  orderly_start : (now task : ℕ) → l.woken ≡ [] → IsOrderly l (starts now task)
  orderly_end : 0 < l.active_count → IsOrderly l ends
  orderly_resume : IsOrderly l resumes

abbrev pub AllOrderly : Limiter → List Turn → Type 0
AllOrderly l [] = Unit {0}
AllOrderly l (t ∷ ts) = IsOrderly l t × AllOrderly (turn l t) ts

-- The highest maximum that is in force when a task of the list starts, or `best` if that is more.
abbrev pub highest : MaxConcurrent → ℕ → List Turn → ℕ
highest m best [] = best
highest m best (starts now task ∷ ts) = highest m (max best (get_max_concurrent m now)) ts
highest m best (ends ∷ ts) = highest m best ts
highest m best (resumes ∷ ts) = highest m best ts

abbrev admitted : Limiter → ℕ
admitted l = l.active_count + length l.woken

acquire-admitted :
    (l : Limiter) (now task best : ℕ)
    → l.woken ≡ []
    → admitted l ≤ best
    → admitted (acquire l now task) ≤ max best (get_max_concurrent l.max_concurrent now)
unfolding acquire get_max_concurrent
acquire-admitted l now task best w h = ground (arith, ap length w)

release-admitted : (l : Limiter) → 0 < l.active_count → admitted (release l) ≤ admitted l
unfolding release
release-admitted l p = grind (arith, length-append)

resume-admitted : (l : Limiter) → admitted (resume l) ≡ admitted l
unfolding resume
resume-admitted l = ground arith

turn-max : (l : Limiter) (t : Turn) → (turn l t).max_concurrent ≡ l.max_concurrent
unfolding turn acquire release resume
turn-max l (starts now task) = ground arith
turn-max l ends = ground arith
turn-max l resumes = ground arith

run-admitted :
    (l : Limiter) (m : MaxConcurrent) (best : ℕ) (ts : List Turn)
    → l.max_concurrent ≡ m
    → AllOrderly l ts
    → admitted l ≤ best
    → admitted (run l ts) ≤ highest m best ts
unfolding run turn
run-admitted l m best [] same o h = h
run-admitted l m best (starts now task ∷ ts) same (orderly_start _ _ quiet, o) h =
    run-admitted (acquire l now task) m _ ts (turn-max l (starts now task) ∙ same) o
      (rw (sym same) (acquire-admitted l now task best quiet h))
run-admitted l m best (ends ∷ ts) same (orderly_end p, o) h =
    run-admitted (release l) m best ts (turn-max l ends ∙ same) o
      (omega (arith, h, release-admitted l p))
run-admitted l m best (resumes ∷ ts) same (orderly_resume, o) h =
    run-admitted (resume l) m best ts (turn-max l resumes ∙ same) o
      (omega (arith, h, resume-admitted l))

-- From a fresh limiter, in any run in which no task starts between the waking of a queued task and
-- its going on, no more operations are active than the highest maximum that was in force at the start
-- of a task, whether the maximum is a number or a function whose answers change.
pub orderly_run_bound :
    (m : MaxConcurrent) (ts : List Turn)
    → AllOrderly (fresh m) ts
    → (run (fresh m) ts).active_count ≤ highest m 0 ts
unfolding fresh
orderly_run_bound m ts o = omega (arith, run-admitted (fresh m) m 0 ts refl o (omega arith))

-- The limiter does not reserve the place of a woken task: from any full limiter with a queue, the end
-- of one operation followed by the start of another before the woken task goes on makes one more
-- operation active than allowed.
pub woken_task_overfills :
    (l : Limiter) (now first next : ℕ) (rest : List ℕ)
    → l.active_count ≡ get_max_concurrent l.max_concurrent now
    → l.queue ≡ first ∷ rest
    → l.woken ≡ []
    → (run l (ends ∷ starts now next ∷ resumes ∷ [])).active_count
      ≡ get_max_concurrent l.max_concurrent now + 1
unfolding run turn acquire release resume get_max_concurrent
woken_task_overfills l now first next rest full queued quiet = ground (arith, full, queued, quiet)
