-- ===== src/Exceptions/Handler/Laws.antt =====
-- The handler against the sequence of interrupts that the controller delivers.
use endless_hole.Base.{
  ℕ, zero, suc, ◌≡◌, ◌≢◌, refl, ap, ◌∙◌, Option, none, some, ==_refl, ==_of_ne, Option-cases, inl,
  inr,
}
use endless_hole.Exceptions.Handler.{
  Controller, SystemTimer, SliceScheduler, Handler, Processed, ok, unknown_interrupt,
  process_interrupts,
}

module _ {C X S : Type 0} (ic : Controller C) (ticks : SystemTimer X)
    (sched : SliceScheduler S) where
  -- The controller delivers `n` interrupts of the timer, each after the last was finished, and then
  -- another interrupt or none.
  abbrev pub Delivers : (tick : ℕ) → C → ℕ → Option ℕ → Type 0
  Delivers tick c zero last = (ic.ack_interrupt c).0 ≡ last
  Delivers tick c (suc n) last =
      ((ic.ack_interrupt c).0 ≡ some tick)
      × Delivers tick (ic.finish_interrupt tick (ic.ack_interrupt c).1) n last

  -- The controller after `n` interrupts of the timer and the last acknowledgement.
  abbrev pub controller_after : (tick : ℕ) → ℕ → C → C
  controller_after tick zero c = (ic.ack_interrupt c).1
  controller_after tick (suc n) c =
      controller_after tick n (ic.finish_interrupt tick (ic.ack_interrupt c).1)

  abbrev pub reset_times : ℕ → X → X
  reset_times zero x = x
  reset_times (suc n) x = reset_times n (ticks.reset x)

  abbrev pub slice_times : ℕ → S → Option S
  slice_times zero s = some s
  slice_times (suc n) s = elim (sched.next_time_slice s) [ none ↦ none | some t ↦ slice_times n t ]

  -- The timer's interrupt is not among those that end the sequence.
  abbrev pub IsOther : ℕ → Option ℕ → Type 0
  IsOther tick none = Unit
  IsOther tick (some id) = id ≢ tick

  abbrev pub returned : Option ℕ → Handler C X S → Processed C X S
  returned none h = ok h
  returned (some id) h = unknown_interrupt id h

  last_interrupt :
      (fuel : ℕ) (last : Option ℕ) (h : Handler C X S)
      → (ic.ack_interrupt h.controller).0 ≡ last
      → IsOther (ticks.interrupt_id h.timer) last
      → process_interrupts ic ticks sched (suc fuel) h
        ≡ returned last (record h { controller = (ic.ack_interrupt h.controller).1 })
  unfolding process_interrupts
  last_interrupt fuel none h e other = rw (e, process_interrupts) refl
  last_interrupt fuel (some id) h e other =
      rw (e, process_interrupts) (rw (==_of_ne id (ticks.interrupt_id h.timer) other) refl)

  abbrev after_tick : Handler C X S → S → Handler C X S
  after_tick h t = record {
    controller = ic.finish_interrupt (ticks.interrupt_id h.timer) (ic.ack_interrupt h.controller).1;
    timer = ticks.reset h.timer;
    scheduler = t;
  }

  tick_interrupt :
      (fuel : ℕ) (h : Handler C X S) (t : S)
      → (ic.ack_interrupt h.controller).0 ≡ some (ticks.interrupt_id h.timer)
      → sched.next_time_slice h.scheduler ≡ some t
      → process_interrupts ic ticks sched (suc fuel) h
        ≡ process_interrupts ic ticks sched fuel (after_tick h t)
  unfolding process_interrupts
  tick_interrupt fuel h t e f =
      rw (e, process_interrupts) (rw (==_refl (ticks.interrupt_id h.timer), f) refl)

  -- When the controller delivers `n` interrupts of the timer and then no interrupt or another one, and
  -- the scheduler can run `n` time slices: one round more than that processes them. The scheduler has
  -- run exactly `n` slices, the timer was reset and its interrupt finished as often. The result is an
  -- error, with the id, if another interrupt came, which is acknowledged and not finished.
  pub process_interrupts-returned :
      (n : ℕ) (last : Option ℕ) (h : Handler C X S) (s : S)
      → Delivers (ticks.interrupt_id h.timer) h.controller n last
      → IsOther (ticks.interrupt_id h.timer) last
      → slice_times n h.scheduler ≡ some s
      → process_interrupts ic ticks sched (suc n) h
        ≡ returned last (record {
          controller = controller_after (ticks.interrupt_id h.timer) n h.controller;
          timer = reset_times n h.timer;
          scheduler = s;
        })
  process_interrupts-returned zero last h s e other slices =
      let same : h.scheduler ≡ s = cc in
      last_interrupt zero last h e other
      ∙ ap
          (λ t. returned last (record {
            controller = (ic.ack_interrupt h.controller).1;
            timer = h.timer;
            scheduler = t;
          }))
          same
  process_interrupts-returned (suc n) last h s (e, later) other slices =
      elim (Option-cases (sched.next_time_slice h.scheduler)) [
        | inl stuck ↦ let f : none ≡ some s = rw (stuck, slice_times) at slices in absurd cc
        | inr (t, f) ↦
            let law = ticks.reset-interrupt_id h.timer in
            let u = after_tick h t in
            tick_interrupt (suc n) h t e f
            ∙ rw law at (
                process_interrupts-returned n last u s (rw law later) (rw law other)
                  (rw (f, slice_times) at slices))
      ]
