-- ===== src/Exceptions/Handler/Examples.antt =====
-- A run of the handler with the round-robin scheduler.
use endless_hole.Base.{
  ℕ, suc, ◌≡◌, refl, arith, List, [], ◌∷◌, Option, none, some, ◌==◌, if◌then◌else◌,
}
use endless_hole.Process.Scheduler.{
  running, RoundRobinScheduler, next_time_slice, pop_running, switch,
}
use endless_hole.Exceptions.Handler.{
  Controller, SystemTimer, SliceScheduler, Handler, unknown_interrupt, process_interrupts,
}
use endless_hole.Exceptions.Handler.Laws.{process_interrupts-returned}

-- A controller with the interrupts that are pending and those that were finished.
abbrev ack : List ℕ × List ℕ → Option ℕ × (List ℕ × List ℕ)
ack ([], finished) = (none, ([], finished))
ack (id ∷ pending, finished) = (some id, (pending, finished))

abbrev controller : Controller (List ℕ × List ℕ)
controller = record { ack_interrupt = ack; finish_interrupt = λ id c. (c.0, id ∷ c.1) }

-- A timer of interrupt 30 that counts how often it was reset.
abbrev timer : SystemTimer ℕ
timer = record {
  interrupt_id = λ resets. 30;
  reset = λ resets. suc resets;
  reset-interrupt_id = λ x. refl;
}

abbrev scheduler : SliceScheduler (RoundRobinScheduler ℕ)
scheduler = record { next_time_slice = λ s. next_time_slice (λ t. running) s 0 }

abbrev round_robin : List ℕ → ℕ → RoundRobinScheduler ℕ
round_robin queue current = record {
  queues = λ cpu. if cpu == 0 then some queue else none;
  current_threads = λ cpu. if cpu == 0 then some current else none;
}

abbrev handler : Handler (List ℕ × List ℕ) ℕ (RoundRobinScheduler ℕ)
handler = record {
  controller = (30 ∷ 1000 ∷ [], []);
  timer = 0;
  scheduler = round_robin (7 ∷ []) 8;
}

-- The timer's interrupt is handled; the unknown one is reported and not finished.
process_interrupts-returned_example :
    process_interrupts controller timer scheduler 2 handler
    ≡ unknown_interrupt 1000 (record {
      controller = ([], 30 ∷ []);
      timer = 1;
      scheduler = record {
        queues =
            λ cpu. if cpu == 0 then some (8 ∷ []) else (if cpu == 0 then some (7 ∷ []) else none);
        current_threads = λ cpu. if cpu == 0 then some 7 else (if cpu == 0 then some 8 else none);
      };
    })
unfolding next_time_slice pop_running switch
process_interrupts-returned_example =
    process_interrupts-returned controller timer scheduler 1 (some 1000) handler _ (refl, refl)
      (omega arith) refl
