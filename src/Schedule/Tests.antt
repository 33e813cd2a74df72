-- ===== src/Schedule/Tests.antt =====
-- `Schedule` of src/schedule/schedule.cpp with two threads.
use sofa_bolt_cpp.Base.{ℕ, zero, suc, ◌≡◌, ◌⊎◌, refl, true, none, some, [], arith, ◌<◌}
use sofa_bolt_cpp.Schedule.{Started, no_loop, polls, init_threads, thread_for}
use sofa_bolt_cpp.Schedule.Init.{init_threads-failed}

-- The second thread does not make its loop's descriptor.
abbrev second_fails : ℕ → Started
second_fails zero = polls
second_fails (suc n) = no_loop

not_polls : no_loop ≡ polls → ⊥
not_polls e = cc e

init_threads-failed_example :
    (init_threads second_fails true 2 ≡ none)
    ⊎ ((◌≡◌ {A = ℕ} 2 2)
        × (no_loop ≡ no_loop)
        × (init_threads second_fails true 2
            ≡ some (true, record { threads = []; time_thread = true })))
init_threads-failed_example =
    init_threads-failed second_fails true 1 2 first not_polls (omega arith)
  where
    first : (j : ℕ) → j < 1 → second_fails j ≡ polls
    first zero h = refl
    first (suc j) h = absurd (omega (arith, h))

-- The descriptor 7 goes to the thread 3 of 4, also where thread 0 is asked for.
asked_for_0 : thread_for 4 7 (some 0) ≡ 3
unfolding thread_for
asked_for_0 = refl
