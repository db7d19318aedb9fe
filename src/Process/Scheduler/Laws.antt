-- ===== src/Process/Scheduler/Laws.antt =====
-- What one time slice does to the queue of a CPU.
use mathlib.Core.List.{append_assoc, append-nil}
use endless_hole.Base.{ℕ, zero, suc, ◌<◌, ◌≡◌, ◌≢◌, ◌⊎◌, inl, inr, refl, sym, ap, ◌∙◌, arith}
use endless_hole.Base.{
  List, [], ◌∷◌, ◌++◌, Option, none, some, write, length, All, ==_refl, ==_of_ne,
}
use endless_hole.Process.Scheduler.{
  State, running, blocked, RoundRobinScheduler, pop_running, switch, next_time_slice,
}

module _ {T : Type 0} (state : T → State) where
  abbrev pub IsBlocked : List T → Type 0
  IsBlocked ts = All (λ t. state t ≡ blocked) ts

  -- The first thread of a queue that can run, with those before and after it.
  abbrev pub IsFirst : List T → List T → T → List T → Type 0
  IsFirst queue before t after =
      (queue ≡ before ++ t ∷ after) × IsBlocked before × (state t ≡ running)

  State-cases : (t : T) → (state t ≡ running) ⊎ (state t ≡ blocked)
  State-cases t = go (state t) refl
    where
      go : (x : State) → state t ≡ x → (state t ≡ running) ⊎ (state t ≡ blocked)
      go running e = inl e
      go blocked e = inr e

  pub running-IsFirst :
      (queue : List T)
      → IsBlocked queue
        ⊎ ((before : List T) × (t : T) × (after : List T) × IsFirst queue before t after)
  running-IsFirst [] = inl tt
  running-IsFirst (x ∷ queue) = elim (State-cases x) [
    | inl run ↦ inr ([], x, queue, (refl, tt, run))
    | inr stop ↦ elim (running-IsFirst queue) [
      | inl all ↦ inl (stop, all)
      | inr (before, t, after, (e, bs, run)) ↦
          inr (x ∷ before, t, after, (ap (λ q. x ∷ q) e, (stop, bs), run))
    ]
  ]

  pop_running-blocked :
      (queue after : List T)
      → IsBlocked queue
      → pop_running state (length queue) (queue ++ after) ≡ (none, after ++ queue)
  unfolding pop_running
  pop_running-blocked [] after h = ap (λ q. (none, q)) (sym (append-nil after))
  pop_running-blocked (x ∷ queue) after (stop, h) =
      rw (stop, append_assoc queue after (x ∷ []))
        (pop_running-blocked queue (after ++ x ∷ []) h
          ∙ ap (λ q. (none, q)) (append_assoc after (x ∷ []) queue))

  pop_running-running :
      (rounds : ℕ) (before : List T) (t : T) (after : List T)
      → length before < rounds
      → IsBlocked before
      → state t ≡ running
      → pop_running state rounds (before ++ t ∷ after) ≡ (some t, after ++ before)
  unfolding pop_running
  pop_running-running zero before t after lt h run = absurd (omega arith)
  pop_running-running (suc rounds) [] t after lt h run =
      rw run (ap (λ q. (some t, q)) (sym (append-nil after)))
  pop_running-running (suc rounds) (x ∷ before) t after lt (stop, h) run =
      rw (stop, append_assoc before (t ∷ after) (x ∷ []))
        (pop_running-running rounds before t (after ++ x ∷ []) (omega arith) h run
          ∙ ap (λ q. (some t, q)) (append_assoc after (x ∷ []) before))

  length-before :
      (before : List T) (t : T) (after : List T) → length before < length (before ++ t ∷ after)
  length-before [] t after = omega arith
  length-before (x ∷ before) t after = omega (arith, length-before before t after)

  abbrev pub Keeps : RoundRobinScheduler T → ℕ → RoundRobinScheduler T → Type 0
  Keeps s cpu n =
      (other : ℕ)
      → other ≢ cpu
      → (n.queues other ≡ s.queues other) × (n.current_threads other ≡ s.current_threads other)

  module _ (s : RoundRobinScheduler T) (cpu : ℕ) (queue : List T) (current : T)
      (has_queue : s.queues cpu ≡ some queue)
      (has_current : s.current_threads cpu ≡ some current) where
    pub next_time_slice-running :
        (before : List T) (t : T) (after : List T)
        → IsFirst queue before t after
        → next_time_slice state s cpu
          ≡ some (record {
            queues = write s.queues cpu (some ((after ++ before) ++ current ∷ []));
            current_threads = write s.current_threads cpu (some t);
          })
    unfolding next_time_slice switch
    next_time_slice-running before t after (e, h, run) =
        let popped : pop_running state (length queue) queue ≡ (some t, after ++ before) = rw e (
          pop_running-running (length (before ++ t ∷ after)) before t after
            (length-before before t after) h run) in
        rw (has_queue, next_time_slice) (rw (popped, switch) (rw (has_current, switch) refl))

    next_time_slice-blocked :
        IsBlocked queue
        → next_time_slice state s cpu ≡ some (record s { queues = write s.queues cpu (some queue) })
    unfolding next_time_slice switch
    next_time_slice-blocked h =
        let popped : pop_running state (length queue) queue ≡ (none, queue) =
          rw (append-nil queue) at (pop_running-blocked queue [] h) in
        rw (has_queue, next_time_slice) (rw (popped, switch) refl)

    -- What `next_time_slice` promises of its result.
    abbrev pub Slices : Option (RoundRobinScheduler T) → Type 0
    Slices none = ⊥
    Slices (some n) =
        Keeps s cpu n
        × ((IsBlocked queue × (n.queues cpu ≡ some queue) × (n.current_threads cpu ≡ some current))
            ⊎ ((before : List T) × (t : T) × (after : List T) × IsFirst queue before t after
                × (n.queues cpu ≡ some ((after ++ before) ++ current ∷ []))
                × (n.current_threads cpu ≡ some t)))

    -- On a CPU that has a queue and a current thread, a time slice does not panic. If no thread of the
    -- queue can run, nothing changes. Else the first thread that can run becomes the current one, and
    -- the queue is what came after it, then the blocked threads before it, then the thread that was
    -- current. Other CPUs keep their queues and threads.
    pub next_time_slice-Slices : Slices (next_time_slice state s cpu)
    next_time_slice-Slices = elim (running-IsFirst queue) [
      | inl all ↦ rw (next_time_slice-blocked all) (
        λ other ne. (rw (==_of_ne other cpu ne) refl, refl),
        inl (all, rw (==_refl cpu) refl, has_current),
      )
      | inr (before, t, after, first) ↦ rw (next_time_slice-running before t after first) (
        λ other ne. (rw (==_of_ne other cpu ne) refl, rw (==_of_ne other cpu ne) refl),
        inr (before, t, after, first, rw (==_refl cpu) refl, rw (==_refl cpu) refl),
      )
    ]
