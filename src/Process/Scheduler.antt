-- ===== src/Process/Scheduler.antt =====
-- kernel_core/src/process/thread/scheduler.rs: round-robin scheduling. A thread stands for an
-- `Arc<Thread>`; its state is read from outside, since other parts of the kernel change it. A CPU is
-- its id, and each runs the operations on its own queue.
pub mod Laws
pub mod Fair
mod Examples
use endless_hole.Base.{
  ℕ, zero, suc, List, [], ◌∷◌, ◌++◌, Option, none, some, ◌==◌, if◌then◌else◌, write, length,
}

-- `State` of kernel_core/src/process/thread/mod.rs
pub data State : Type 0 where
  running blocked : State

-- A key that is missing in a map is `none`.
pub record RoundRobinScheduler (T : Type 0) : Type 0 where
  pub queues : ℕ → Option (List T)
  pub current_threads : ℕ → Option T

module _ {T : Type 0} where
  abbrev from_cpus : {A : Type 0} → (T → A) → List (ℕ × T) → ℕ → Option A
  from_cpus f [] cpu = none
  from_cpus f ((id, idle_thread) ∷ cpus) cpu =
      let later = from_cpus f cpus cpu in
      elim later [ some a ↦ some a | none ↦ if cpu == id then some (f idle_thread) else none ]

  -- Collecting pairs into a map keeps the last one of each key.
  unfoldable pub new : List (ℕ × T) → RoundRobinScheduler T
  new cpus = record {
    queues = from_cpus (λ idle_thread. []) cpus;
    current_threads = from_cpus (λ idle_thread. idle_thread) cpus;
  }

  -- `none` is a panic.
  unfoldable pub current_thread : RoundRobinScheduler T → (cpu : ℕ) → Option T
  current_thread s cpu = s.current_threads cpu

  module _ (state : T → State) where
    -- The `for` loop of `next_time_slice`, over so many rounds.
    unfoldable pub pop_running : (rounds : ℕ) → List T → Option T × List T
    pop_running zero queue = (none, queue)
    pop_running (suc rounds) [] = (none, [])
    pop_running (suc rounds) (t ∷ queue) =
        let rest = pop_running rounds (queue ++ t ∷ []) in
        elim (state t) [ running ↦ (some t, queue) | blocked ↦ rest ]

    -- The swap of the current thread; `none` is a panic.
    unfoldable pub switch :
        RoundRobinScheduler T → (cpu : ℕ) → Option T × List T → Option (RoundRobinScheduler T)
    switch s cpu (none, queue) = some (record s { queues = write s.queues cpu (some queue) })
    switch s cpu (some next_thread, queue) = elim (s.current_threads cpu) [
      | none ↦ none
      | some last_thread ↦ some (record {
        queues = write s.queues cpu (some (queue ++ last_thread ∷ []));
        current_threads = write s.current_threads cpu (some next_thread);
      })
    ]

    unfoldable pub next_time_slice :
        RoundRobinScheduler T → (cpu : ℕ) → Option (RoundRobinScheduler T)
    next_time_slice s cpu = elim (s.queues cpu) [
      | none ↦ none
      | some queue ↦ switch s cpu (pop_running (length queue) queue)
    ]
