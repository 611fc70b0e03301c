-- ===== src/Limiter/Concurrency/Tests.antt =====
-- A limiter whose maximum shrinks, and one for a single operation.
use cgov_api.Prelude.{[], ◌+◌, ◌≤◌, ◌≡◌, refl, List, ◌∷◌, arith}
use cgov_api.Prelude.{if◌then◌else◌, ltb}
use cgov_api.Limiter.Concurrency.{
  MaxConcurrent, constant, computed, configured, Limiter, get_max_concurrent, acquire, resume,
  release, starts, ends, resumes, Turn, turn, run, fresh,
}
use cgov_api.Limiter.Concurrency.Admission.{
  highest, orderly_start, orderly_end, orderly_resume, AllOrderly, orderly_run_bound,
  woken_task_overfills,
}

-- Two operations may run until 10, and one from then on.
abbrev shrinking : MaxConcurrent
shrinking = computed (λ now. if ltb now 10 then 2 else 1)

abbrev turns : List Turn
turns = starts 1 1 ∷ starts 2 2 ∷ starts 12 3 ∷ ends ∷ resumes ∷ ends ∷ []

turns-AllOrderly : AllOrderly (fresh shrinking) turns
unfolding fresh turn acquire get_max_concurrent configured release resume
turns-AllOrderly = (
  orderly_start 1 1 refl,
  (
    orderly_start 2 2 refl,
    (
      orderly_start 12 3 refl,
      (orderly_end (omega arith), (orderly_resume, (orderly_end (omega arith), tt))),
    ),
  ),
)

orderly_run_bound_example : (run (fresh shrinking) turns).active_count ≤ highest shrinking 0 turns
orderly_run_bound_example = orderly_run_bound shrinking turns turns-AllOrderly

abbrev busy : Limiter
busy = record { max_concurrent = constant 1; active_count = 1; queue = 7 ∷ []; woken = [] }

busy_full : busy.active_count ≡ get_max_concurrent busy.max_concurrent 5
unfolding get_max_concurrent configured
busy_full = refl

woken_task_overfills_example :
    (run busy (ends ∷ starts 5 9 ∷ resumes ∷ [])).active_count
    ≡ get_max_concurrent busy.max_concurrent 5 + 1
woken_task_overfills_example = woken_task_overfills busy 5 7 9 [] busy_full refl refl
