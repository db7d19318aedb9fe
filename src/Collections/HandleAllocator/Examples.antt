-- ===== src/Collections/HandleAllocator/Examples.antt =====
-- Runs of the allocator, and the theorems about it at concrete allocators and schedules.
use endless_hole.Base.{ℕ, ◌-◌, ◌^◌, ◌≡◌, refl, arith, [], ◌∷◌, some}
use endless_hole.Base.Bits
use endless_hole.Collections.HandleAllocator as Allocator
use endless_hole.Collections.HandleAllocator.{
  propose, HandleAllocator, new, next_handle, free_handle, Freed, ok, err, out_of_bounds,
  not_allocated,
}
use endless_hole.Collections.HandleAllocator.Laws.{
  is_allocated, IsValid, Allocates, next_handle-Allocates, Frees, free_handle-Frees,
}
use endless_hole.Collections.HandleAllocator.Threads.{
  took, System, call_next, load_word, take, retry_take, pick, Reach, start, later,
}
use endless_hole.Collections.HandleAllocator.Threads.History.{IsLegal, holds, Reach-IsLegal}

-- 70 handles, the first 64 of them taken
abbrev some_taken : HandleAllocator
some_taken = record { bits = (2 ^ 64 - 1) ∷ 0 ∷ []; max_handle = 70 }

some_taken-IsValid : IsValid some_taken
some_taken-IsValid = record { limit = omega arith; enough = refl; words = omega arith }

next_64 : next_handle some_taken ≡ some (64, record some_taken { bits = (2 ^ 64 - 1) ∷ 1 ∷ [] })
unfolding next_handle Allocator.next_from propose Bits.trailing_zeros
next_64 = refl

next_handle-Allocates_example : Allocates some_taken (next_handle some_taken)
next_handle-Allocates_example = next_handle-Allocates some_taken some_taken-IsValid

free_3 : free_handle some_taken 3 ≡ ok (record some_taken { bits = (2 ^ 64 - 9) ∷ 0 ∷ [] })
unfolding free_handle Allocator.clear
free_3 = refl

free_65 : free_handle some_taken 65 ≡ err not_allocated
unfolding free_handle Allocator.clear
free_65 = refl

free_70 : free_handle some_taken 70 ≡ err out_of_bounds
unfolding free_handle Allocator.clear
free_70 = refl

free_handle-Frees_example : Frees some_taken 3 (free_handle some_taken 3)
free_handle-Frees_example = free_handle-Frees some_taken 3 some_taken-IsValid

-- Two threads load the same word; the second one has to try again.
raced : (s : System) × Reach 70 s × (s.log ≡ (took 1 ∷ took 0 ∷ []))
unfolding new propose Bits.trailing_zeros
raced =
    let s = start in
    let a = later s (pick 0 call_next) in
    let b = later a (pick 1 call_next) in
    let c = later b (pick 0 (load_word (omega arith))) in
    let d = later c (pick 1 (load_word (omega arith))) in
    let e = later d (pick 1 (take {h = 0} {y = 1} refl refl)) in
    let f = later e (pick 0 (retry_take refl)) in
    let g = later f (pick 0 (take {h = 1} {y = 3} refl refl)) in (_, g, refl)

Reach-IsLegal_example :
    IsLegal 70 raced.0.log × ((h : ℕ) → is_allocated raced.0.shared h ≡ holds raced.0.log h)
Reach-IsLegal_example = Reach-IsLegal (omega arith) raced.1
