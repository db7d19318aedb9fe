-- ===== src/Exceptions/Handler.antt =====
-- kernel_core/src/exceptions/interrupt/handler.rs: the handler of interrupts, over the traits of the
-- interrupt controller, the timer and the scheduler. An implementation of a trait has its own state.
pub mod Laws
mod Examples
use endless_hole.Base.{ℕ, zero, suc, Option, none, some, ◌==◌, if◌then◌else◌, ◌≡◌}

-- The operations of `Controller` that the handler calls.
pub record Controller (C : Type 0) : Type 0 where
  pub ack_interrupt : C → Option ℕ × C
  pub finish_interrupt : ℕ → C → C

-- `SystemTimer`; the id of its interrupt stays the same.
pub record SystemTimer (X : Type 0) : Type 0 where
  pub interrupt_id : X → ℕ
  pub reset : X → X
  pub reset-interrupt_id : (x : X) → interrupt_id (reset x) ≡ interrupt_id x

-- The operation of `Scheduler` that the handler calls; `none` is a panic.
pub record SliceScheduler (S : Type 0) : Type 0 where
  pub next_time_slice : S → Option S

pub record Handler (C X S : Type 0) : Type 0 where
  pub controller : C
  pub timer : X
  pub scheduler : S

-- What `process_interrupts` returns, with the state that it leaves.
pub data Processed (C X S : Type 0) : Type 0 where
  out_of_fuel panicked : Processed C X S
  ok : (handler : Handler C X S) → Processed C X S
  unknown_interrupt : (id : ℕ) (handler : Handler C X S) → Processed C X S

module _ {C X S : Type 0} (ic : Controller C) (ticks : SystemTimer X)
    (sched : SliceScheduler S) where
  -- The `while` loop, over fuel: a controller may go on delivering interrupts for ever.
  unfoldable pub process_interrupts : (fuel : ℕ) → Handler C X S → Processed C X S
  process_interrupts zero h = out_of_fuel
  process_interrupts (suc fuel) h =
      let (acknowledged, controller) = ic.ack_interrupt h.controller in
      elim acknowledged [
        | none ↦ ok (record h { controller = controller })
        | some int_id ↦
            if int_id == ticks.interrupt_id h.timer
            then elim (sched.next_time_slice h.scheduler) [
              | none ↦ panicked
              | some scheduler ↦ process_interrupts fuel (record {
                controller = ic.finish_interrupt int_id controller;
                timer = ticks.reset h.timer;
                scheduler = scheduler;
              })
            ]
            else unknown_interrupt int_id (record h { controller = controller })
      ]
