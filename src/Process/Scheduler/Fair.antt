-- ===== src/Process/Scheduler/Fair.antt =====
-- Time slices in a row.
use mathlib.Core.List.{append_assoc}
use endless_hole.Base.{ℕ, zero, suc, ◌≡◌, inl, inr, refl, ap, ◌∙◌, arith}
use endless_hole.Base.{List, [], ◌∷◌, ◌++◌, Option, none, some, write, ==_refl}
use endless_hole.Process.Scheduler.{State, running, blocked, RoundRobinScheduler, next_time_slice}
use endless_hole.Process.Scheduler.Laws.{
  IsBlocked, IsFirst, running-IsFirst, next_time_slice-running,
}

module _ {T : Type 0} (state : T → State) where
  -- So many time slices on one CPU, while no thread changes its state.
  unfoldable pub time_slices :
      ℕ → RoundRobinScheduler T → (cpu : ℕ) → Option (RoundRobinScheduler T)
  time_slices zero s cpu = some s
  time_slices (suc n) s cpu = elim (next_time_slice state s cpu) [
    | none ↦ none
    | some t ↦ time_slices n t cpu
  ]

  -- How many threads of a list can run.
  unfoldable pub count_running : List T → ℕ
  count_running [] = 0
  count_running (t ∷ ts) =
      let rest = count_running ts in elim (state t) [ running ↦ suc rest | blocked ↦ rest ]

  count-blocked : (ts : List T) → IsBlocked state ts → count_running ts ≡ 0
  unfolding count_running
  count-blocked [] h = refl
  count-blocked (t ∷ ts) (stop, h) = rw (stop, count_running) (count-blocked ts h)

  count-first :
      (a : List T) (r : T) (b : List T)
      → IsBlocked state a
      → state r ≡ running
      → count_running (a ++ r ∷ b) ≡ suc (count_running b)
  unfolding count_running
  count-first [] r b h run = rw (run, count_running) refl
  count-first (t ∷ a) r b (stop, h) run = rw (stop, count_running) (count-first a r b h run)

  -- The thread is current after the slices.
  abbrev pub IsCurrentAfter : ℕ → RoundRobinScheduler T → ℕ → T → Type 0
  IsCurrentAfter n s cpu t =
      (u : RoundRobinScheduler T) × (time_slices n s cpu ≡ some u)
      × (u.current_threads cpu ≡ some t)

  -- The scheduler after a slice that makes `r` current.
  abbrev sliced : RoundRobinScheduler T → (cpu : ℕ) → List T → T → RoundRobinScheduler T
  sliced s cpu queue r = record {
    queues = write s.queues cpu (some queue);
    current_threads = write s.current_threads cpu (some r);
  }

  time_slices-first :
      (n : ℕ) (s : RoundRobinScheduler T) (cpu : ℕ) (queue : List T) (current : T) (a : List T)
      (r : T) (b : List T)
      → s.queues cpu ≡ some queue
      → s.current_threads cpu ≡ some current
      → IsFirst state queue a r b
      → time_slices (suc n) s cpu ≡ time_slices n (sliced s cpu ((b ++ a) ++ current ∷ []) r) cpu
  unfolding time_slices
  time_slices-first n s cpu queue current a r b q c first =
      rw (next_time_slice-running state s cpu queue current q c a r b first, time_slices) refl

  -- A thread that can run waits one slice for each thread before it in the queue that can run, and is
  -- current after the next one, if meanwhile no thread changes its state.
  pub time_slices-IsCurrentAfter :
      (n : ℕ) (s : RoundRobinScheduler T) (cpu : ℕ) (before : List T) (t : T) (after : List T)
      (current : T)
      → count_running before ≡ n
      → s.queues cpu ≡ some (before ++ t ∷ after)
      → s.current_threads cpu ≡ some current
      → state t ≡ running
      → IsCurrentAfter (suc n) s cpu t
  time_slices-IsCurrentAfter zero s cpu before t after current count q c run =
      elim (running-IsFirst state before) [
        | inl all ↦ (
          sliced s cpu ((after ++ before) ++ current ∷ []) t,
          time_slices-first 0 s cpu _ current before t after q c (refl, all, run)
              ∙ unfold time_slices in refl,
          rw (==_refl cpu) refl,
        )
        | inr (a, r, b, (split, h, first)) ↦
            absurd (omega (arith, ap count_running split, count-first a r b h first))
      ]
  time_slices-IsCurrentAfter (suc n) s cpu before t after current count q c run =
      elim (running-IsFirst state before) [
        | inl all ↦ absurd (omega (arith, count-blocked before all))
        | inr (a, r, b, (split, h, first)) ↦
            let queue : before ++ t ∷ after ≡ a ++ r ∷ (b ++ t ∷ after) =
              rw split (append_assoc a (r ∷ b) (t ∷ after)) in
            let moved : ((b ++ t ∷ after) ++ a) ++ current ∷ []
                ≡ b ++ t ∷ ((after ++ a) ++ current ∷ []) =
              ap (λ l. l ++ current ∷ []) (append_assoc b (t ∷ after) a)
              ∙ append_assoc b (t ∷ (after ++ a)) (current ∷ []) in
            let u : RoundRobinScheduler T =
              sliced s cpu (((b ++ t ∷ after) ++ a) ++ current ∷ []) r in
            let (w, slices, now) =
              time_slices-IsCurrentAfter n u cpu b t ((after ++ a) ++ current ∷ []) r
                (omega (arith, ap count_running split, count-first a r b h first))
                (rw (==_refl cpu) (ap some moved)) (rw (==_refl cpu) refl) run in
            (
              w,
              time_slices-first (suc n) s cpu _ current a r (b ++ t ∷ after) q c (queue, h, first)
                  ∙ slices,
              now,
            )
      ]
