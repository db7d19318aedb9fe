-- ===== src/Process/Scheduler/Examples.antt =====
-- Runs of the scheduler, and the theorems about it at a concrete state.
use endless_hole.Base.{ℕ, ◌≡◌, refl, [], ◌∷◌, none, some, ◌==◌, if◌then◌else◌}
use endless_hole.Process.Scheduler.{
  State, running, blocked, RoundRobinScheduler, current_thread, pop_running, switch,
  next_time_slice,
}
use endless_hole.Process.Scheduler as Scheduler
use endless_hole.Process.Scheduler.Laws.{Slices, next_time_slice-Slices}
use endless_hole.Process.Scheduler.Fair.{count_running, IsCurrentAfter, time_slices-IsCurrentAfter}

-- Threads are numbers; 1 is blocked.
abbrev state_of : ℕ → State
state_of t = if t == 1 then blocked else running

-- On CPU 0 thread 9 is current, and 1, 2 and 3 wait.
abbrev waiting : RoundRobinScheduler ℕ
waiting = record {
  queues = λ cpu. if cpu == 0 then some (1 ∷ 2 ∷ 3 ∷ []) else none;
  current_threads = λ cpu. if cpu == 0 then some 9 else none;
}

popped : pop_running state_of 3 (1 ∷ 2 ∷ 3 ∷ []) ≡ (some 2, 3 ∷ 1 ∷ [])
unfolding pop_running
popped = refl

idle_first : current_thread {T = ℕ} (Scheduler.new ((4, 40) ∷ (5, 50) ∷ [])) 5 ≡ some 50
unfolding Scheduler.new current_thread
idle_first = refl

next_time_slice-Slices_example :
    Slices state_of waiting 0 (1 ∷ 2 ∷ 3 ∷ []) 9 refl refl (next_time_slice state_of waiting 0)
next_time_slice-Slices_example =
    next_time_slice-Slices state_of waiting 0 (1 ∷ 2 ∷ 3 ∷ []) 9 refl refl

-- Thread 3 has to wait for thread 2.
time_slices-IsCurrentAfter_example : IsCurrentAfter state_of 2 waiting 0 3
unfolding count_running
time_slices-IsCurrentAfter_example =
    time_slices-IsCurrentAfter state_of 1 waiting 0 (1 ∷ 2 ∷ []) 3 [] 9 refl refl refl refl
